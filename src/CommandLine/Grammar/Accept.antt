-- ===== src/CommandLine/Grammar/Accept.antt =====
-- `collectargs` accepts every command line of the grammar.
use vr_jugglua.Prelude.{
  ℕ, ◌+◌, ◌≡◌, refl, ◌∙◌, ap, List, [], ◌∷◌, ◌++◌, Option, some, Bytes, arith, length,
}
use vr_jugglua.CommandLine.{
  Flags, no_flags, result, proceed, skip_next, round, collect, collectargs,
}
use vr_jugglua.CommandLine.Grammar.{
  Opt, interactive, version, exec_attached, require_attached, exec_separate, require_separate,
  words, IsOpt, AreOpts, Ending, nothing_more, dashes, dashes_script, script, ending_words,
  IsEnding, command_words, script_index, opt_flags, flags,
}

-- What `case '-'` returns in front of the arguments `rest`.
abbrev pub dashes_index : ℕ → List Bytes → ℕ
dashes_index i [] = 0
dashes_index i (a ∷ rest) = i + 1

pub collect-proceed :
    (i : ℕ) (a : Bytes) (rest : List Bytes) (f g : Flags)
    → round i a (dashes_index i rest) f ≡ proceed g
    → collect i (a ∷ rest) f ≡ collect (i + 1) rest g
unfolding collect
collect-proceed i a [] f g h = rw (h, collect)
collect-proceed i a (b ∷ rest) f g h = rw (h, collect)

pub collect-skip_next :
    (i : ℕ) (a b : Bytes) (rest : List Bytes) (f g : Flags)
    → round i a (i + 1) f ≡ skip_next g
    → collect i (a ∷ b ∷ rest) f ≡ collect (i + 2) rest g
unfolding collect
collect-skip_next i a b rest f g h = rw (h, collect)

pub collect-result :
    (i : ℕ) (a : Bytes) (rest : List Bytes) (f : Flags) (r : Option ℕ)
    → round i a (dashes_index i rest) f ≡ result r
    → collect i (a ∷ rest) f ≡ (r, f)
unfolding collect
collect-result i a [] f r h = rw (h, collect)
collect-result i a (b ∷ rest) f r h = rw (h, collect)

-- One option: the scan steps over its words and sets its flags.
pub collect_option :
    (i : ℕ) (o : Opt) (rest : List Bytes) (f : Flags)
    → IsOpt o
    → collect i (words o ++ rest) f ≡ collect (i + length (words o)) rest (opt_flags o f)
unfolding round
collect_option i interactive rest f h = collect-proceed i _ rest f _ refl
collect_option i version rest f h = collect-proceed i _ rest f _ refl
collect_option i (exec_attached c cs) rest f h = collect-proceed i _ rest f _ (ground arith)
collect_option i (require_attached c cs) rest f h = collect-proceed i _ rest f _ (ground arith)
collect_option i (exec_separate s) rest f h = collect-skip_next i _ s rest f _ refl
collect_option i (require_separate s) rest f h = collect-skip_next i _ s rest f _ refl

collect_ending :
    (i : ℕ) (e : Ending) (f : Flags)
    → IsEnding e
    → collect i (ending_words e) f ≡ (some (script_index i [] e), f)
unfolding round
collect_ending i nothing_more f h = unfold collect in refl
collect_ending i dashes f h = collect-result i _ [] f _ refl
collect_ending i (dashes_script s args) f h =
    collect-result i _ (s ∷ args) f _ refl ∙ ap (λ (n : ℕ). (some n, f)) (omega arith)
collect_ending i (script s args) f h =
    collect-result i s args f (some i) (ground arith) ∙ ap (λ (n : ℕ). (some n, f)) (omega arith)

script_index-shift :
    (i k : ℕ) (os : List Opt) (e : Ending) (o : Opt)
    → k ≡ i + length (words o)
    → script_index k os e ≡ script_index i (o ∷ os) e
script_index-shift i k os nothing_more o h = refl
script_index-shift i k os dashes o h = refl
script_index-shift i k os (dashes_script s args) o h = omega arith
script_index-shift i k os (script s args) o h = omega arith

pub collect_accepts :
    (i : ℕ) (os : List Opt) (e : Ending) (f : Flags)
    → AreOpts os
    → IsEnding e
    → collect i (command_words os e) f ≡ (some (script_index i os e), flags os f)
collect_accepts i [] e f hs h = collect_ending i e f h
collect_accepts i (o ∷ os) e f hs h =
    collect_option i o (command_words os e) f hs.0
    ∙ collect_accepts (i + length (words o)) os e (opt_flags o f) hs.1 h
    ∙ ap (λ (n : ℕ). (some n, flags os (opt_flags o f)))
        (script_index-shift i (i + length (words o)) os e o refl)

-- A command line made of well-formed options and an ending is accepted: the scan returns the index
-- of the script (0 where there is none) and has set exactly the flags of the options.
pub collectargs_accepts :
    (prog : Bytes) (os : List Opt) (e : Ending)
    → AreOpts os
    → IsEnding e
    → collectargs (prog ∷ command_words os e) ≡ (some (script_index 1 os e), flags os no_flags)
unfolding collectargs
collectargs_accepts prog os e hs h = collect_accepts 1 os e no_flags hs h
