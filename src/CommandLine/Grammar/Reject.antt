-- ===== src/CommandLine/Grammar/Reject.antt =====
-- What `collectargs` accepts is a command line of the grammar: it refuses everything else.
use vr_jugglua.Prelude.{
  ℕ, ◌+◌, ◌≡◌, refl, sym, ◌∙◌, ap, ◌≢◌, ◌⊎◌, inl, inr, List, [], ◌∷◌, ◌++◌, Option, none, some,
  Bytes, codes, char_at, subst, length, arith, ◌==◌, ==_iff, Bool-cases,
}
use vr_jugglua.CommandLine.{Flags, no_flags, result, round, collect, collectargs}
use vr_jugglua.CommandLine.Grammar.{
  Opt, interactive, version, exec_attached, require_attached, exec_separate, require_separate,
  words, IsOpt, AreOpts, Ending, nothing_more, dashes, dashes_script, script, IsEnding,
  command_words, script_index, opt_flags, flags,
}
use vr_jugglua.CommandLine.Grammar.Accept.{collect_accepts, collect_option, collect-result}

-- C strings hold no NUL.
abbrev pub IsNulFree : Bytes → Type 0
IsNulFree [] = Unit
IsNulFree (c ∷ cs) = (c ≢ 0) × IsNulFree cs

abbrev pub AreNulFree : List Bytes → Type 0
AreNulFree [] = Unit
AreNulFree (a ∷ rest) = IsNulFree a × AreNulFree rest

-- What one argument can be.
data ArgView (a : Bytes) : Type 0 where
  starts_script : (char_at a 0 ≢ b'-') ⊎ (a ≡ codes "-") → ArgView a
  ends_options : a ≡ codes "--" → ArgView a
  whole : (o : Opt) → IsOpt o → words o ≡ a ∷ [] → ArgView a
  exec_next : a ≡ codes "-e" → ArgView a
  require_next : a ≡ codes "-l" → ArgView a
  invalid : ((i k : ℕ) (f : Flags) → round i a k f ≡ result none) → ArgView a

-- An argument `-y`.
view_short : (y : ℕ) → y ≢ 0 → ArgView (b'-' ∷ y ∷ [])
unfolding round
view_short y h = elim (Bool-cases (y == b'-')) [
  | inl e ↦ ends_options (rw ((==_iff y b'-').0 e))
  | inr n1 ↦ elim (Bool-cases (y == b'i')) [
    | inl e ↦ whole interactive tt (rw ((==_iff y b'i').0 e))
    | inr n2 ↦ elim (Bool-cases (y == b'v')) [
      | inl e ↦ whole version tt (rw ((==_iff y b'v').0 e))
      | inr n3 ↦ elim (Bool-cases (y == b'e')) [
        | inl e ↦ exec_next (rw ((==_iff y b'e').0 e))
        | inr n4 ↦ elim (Bool-cases (y == b'l')) [
          | inl e ↦ require_next (rw ((==_iff y b'l').0 e))
          | inr n5 ↦ invalid (λ i k f. ground arith)
        ]
      ]
    ]
  ]
]

-- An argument `-yz…`.
view_long : (y z : ℕ) (cs : Bytes) → y ≢ 0 → z ≢ 0 → ArgView (b'-' ∷ y ∷ z ∷ cs)
unfolding round
view_long y z cs h hz = elim (Bool-cases (y == b'e')) [
  | inl e ↦ whole (exec_attached z cs) hz (rw ((==_iff y b'e').0 e))
  | inr n1 ↦ elim (Bool-cases (y == b'l')) [
    | inl e ↦ whole (require_attached z cs) hz (rw ((==_iff y b'l').0 e))
    | inr n2 ↦ invalid (λ i k f. ground arith)
  ]
]

view_dash : (cs : Bytes) → IsNulFree cs → ArgView (b'-' ∷ cs)
view_dash [] h = starts_script (inr refl)
view_dash (y ∷ []) h = view_short y h.0
view_dash (y ∷ z ∷ cs) h = view_long y z cs h.0 h.1.0

view_arg : (a : Bytes) → IsNulFree a → ArgView a
view_arg [] h = starts_script (inl (omega arith))
view_arg (x ∷ cs) h = elim (Bool-cases (x == b'-')) [
  | inl e ↦ rw ((==_iff x b'-').0 e) (view_dash cs h.1)
  | inr n ↦ starts_script (inl (ground arith))
]

-- The arguments are a command line of the grammar.
pub record Described (args : List Bytes) : Type 0 where
  pub options : List Opt
  pub ending : Ending
  pub valid : AreOpts options
  pub ends : IsEnding ending
  pub splits : args ≡ command_words options ending

one_option :
    (o : Opt) (args rest : List Bytes)
    → IsOpt o
    → args ≡ words o ++ rest
    → Described rest
    → Described args
one_option o args rest h e d = record {
  options = o ∷ d.options;
  ending = d.ending;
  valid = (h, d.valid);
  ends = d.ends;
  splits = e ∙ ap (◌++◌ (words o)) d.splits;
}

just_ending :
    (e : Ending) (args : List Bytes) → IsEnding e → args ≡ command_words [] e → Described args
just_ending e args h s = record { options = []; ending = e; valid = tt; ends = h; splits = s }

dashes_Described : (rest : List Bytes) → Described (codes "--" ∷ rest)
dashes_Described [] = just_ending dashes _ tt refl
dashes_Described (s ∷ args) = just_ending (dashes_script s args) _ tt refl

abbrev Accepted : Option ℕ × Flags → Type 0
Accepted out = (r : ℕ) × (out.0 ≡ some r)

refused : {out : Option ℕ × Flags} {g : Flags} → out ≡ (none, g) → ¬ Accepted out
refused e (r, h) = cc

-- The scan goes on behind an option that it has accepted.
option-Accepted :
    (i : ℕ) (o : Opt) (args rest : List Bytes) (f : Flags)
    → IsOpt o
    → args ≡ words o ++ rest
    → Accepted (collect i args f)
    → Accepted (collect (i + length (words o)) rest (opt_flags o f))
option-Accepted i o args rest f h e acc =
    subst Accepted (ap (λ (l : List Bytes). collect i l f) e ∙ collect_option i o rest f h) acc

-- An option whose word is missing.
missing_word :
    (i : ℕ) (a : Bytes) (f : Flags)
    → (a ≡ codes "-e") ⊎ (a ≡ codes "-l")
    → ¬ Accepted (collect i (a ∷ []) f)
unfolding collect round
missing_word i a f (inl e) (r, h) = cc (rw e at h)
missing_word i a f (inr e) (r, h) = cc (rw e at h)

last_Described :
    (i : ℕ) (a : Bytes) (f : Flags)
    → ArgView a
    → Accepted (collect i (a ∷ []) f)
    → Described (a ∷ [])
last_Described i a f (starts_script h) acc = just_ending (script a []) _ h refl
last_Described i a f (ends_options e) acc = rw e (dashes_Described [])
last_Described i a f (whole o h e) acc =
    one_option o (a ∷ []) [] h (ap (λ (l : List Bytes). l ++ []) (sym e))
      (just_ending nothing_more [] tt refl)
last_Described i a f (exec_next e) acc = absurd (missing_word i a f (inl e) acc)
last_Described i a f (require_next e) acc = absurd (missing_word i a f (inr e) acc)
last_Described i a f (invalid h) acc = absurd (refused (collect-result i a [] f none (h i 0 f)) acc)

-- An argument with others behind it; the claims about those are `one` (behind this argument) and
-- `two` (behind the next).
more_Described :
    (i : ℕ) (a b : Bytes) (rest : List Bytes) (f : Flags)
    → ArgView a
    → ((j : ℕ) (g : Flags) → Accepted (collect j (b ∷ rest) g) → Described (b ∷ rest))
    → ((j : ℕ) (g : Flags) → Accepted (collect j rest g) → Described rest)
    → Accepted (collect i (a ∷ b ∷ rest) f)
    → Described (a ∷ b ∷ rest)
more_Described i a b rest f (starts_script h) one two acc =
    just_ending (script a (b ∷ rest)) _ h refl
more_Described i a b rest f (ends_options e) one two acc = rw e (dashes_Described (b ∷ rest))
more_Described i a b rest f (whole o h e) one two acc =
    let s = ap (λ (l : List Bytes). l ++ (b ∷ rest)) (sym e) in
    one_option o _ (b ∷ rest) h s (one _ _ (option-Accepted i o _ (b ∷ rest) f h s acc))
more_Described i a b rest f (exec_next e) one two acc =
    let s = ap (λ (c : Bytes). c ∷ b ∷ rest) e in
    let o = exec_separate b in
    one_option o _ rest tt s (two _ _ (option-Accepted i o _ rest f tt s acc))
more_Described i a b rest f (require_next e) one two acc =
    let s = ap (λ (c : Bytes). c ∷ b ∷ rest) e in
    let o = require_separate b in
    one_option o _ rest tt s (two _ _ (option-Accepted i o _ rest f tt s acc))
more_Described i a b rest f (invalid h) one two acc =
    absurd (refused (collect-result i a (b ∷ rest) f none (h i (i + 1) f)) acc)

pub collect_Described :
    (i : ℕ) (args : List Bytes) (f : Flags)
    → AreNulFree args
    → Accepted (collect i args f)
    → Described args
collect_Described i [] f free acc = just_ending nothing_more [] tt refl
collect_Described i (a ∷ []) f free acc = last_Described i a f (view_arg a free.0) acc
collect_Described i (a ∷ b ∷ rest) f free acc =
    more_Described i a b rest f (view_arg a free.0) (λ j g. collect_Described j (b ∷ rest) g free.1)
      (λ j g. collect_Described j rest g free.1.1) acc

-- Whatever `collectargs` accepts is a command line of the grammar, so that the index and the flags
-- are those of its options and its ending. The arguments hold no NUL byte.
pub collectargs_only :
    (prog : Bytes) (args : List Bytes) (r : ℕ) (g : Flags)
    → AreNulFree args
    → collectargs (prog ∷ args) ≡ (some r, g)
    → (d : Described args) × (r ≡ script_index 1 d.options d.ending)
      × (g ≡ flags d.options no_flags)
unfolding collectargs
collectargs_only prog args r g free h =
    let d = collect_Described 1 args no_flags free (r, ap (λ (p : Option ℕ × Flags). p.0) h) in
    let both =
      sym h
      ∙ ap (λ (l : List Bytes). collect 1 l no_flags) d.splits
      ∙ collect_accepts 1 d.options d.ending no_flags d.valid d.ends in
    (d, cc, cc)
