-- ===== src/CommandLine/Grammar/Perform.antt =====
-- `runargs` on an accepted command line: the `-e` and `-l` options in order, to the first failure.
use vr_jugglua.Prelude.{
  ℕ, suc, ◌+◌, ◌≤◌, ◌≡◌, refl, ◌∙◌, ap, List, [], ◌∷◌, ◌++◌, some, Bytes, arith, length,
  length-append, ◌==◌, ltb, if◌then◌else◌, true, false,
}
use vr_jugglua.CommandLine.{Flags, continue_if_zero, run_from, runargs, collectargs}
use vr_jugglua.CommandLine.Grammar.{
  Opt, interactive, version, exec_attached, require_attached, exec_separate, require_separate,
  words, Ending, nothing_more, dashes, dashes_script, script, ending_words, command_words, width,
  script_index,
}
use vr_jugglua.CommandLine.Grammar.Reject.{AreNulFree, Described, collectargs_only}

-- `(script > 0) ? script : s->argc`, the bound that `pmain` gives to `runargs`.
abbrev pub walk_end : ℕ → ℕ → ℕ
walk_end r argc = if ltb 0 r then r else argc

-- The arguments that the ending adds to those which are walked: the `--`.
abbrev extra : Ending → ℕ
extra nothing_more = 0
extra dashes = 1
extra (dashes_script s args) = 1
extra (script s args) = 0

module _ {ℓ} {S : Type ℓ} (dostring dolibrary : Bytes → S → ℕ × S) where
  -- What one option does, and with which status.
  abbrev pub act : Opt → S → ℕ × S
  act (exec_attached c cs) s = dostring (c ∷ cs) s
  act (exec_separate w) s = dostring w s
  act (require_attached c cs) s = dolibrary (c ∷ cs) s
  act (require_separate w) s = dolibrary w s
  act _ s = (0, s)

  -- The options in order; the first that fails ends the walk, with status 1.
  unfoldable pub perform : List Opt → S → ℕ × S
  perform [] s = (0, s)
  perform (o ∷ os) s =
      let (status, t) = act o s in elim (status == 0) [ true ↦ perform os t | false ↦ (1, t) ]

  run_option :
      (i n : ℕ) (o : Opt) (rest : List Bytes) (s : S)
      → suc i ≤ n
      → run_from dostring dolibrary i n (words o ++ rest) s
        ≡ continue_if_zero (act o s) (run_from dostring dolibrary (i + length (words o)) n rest)
  unfolding run_from
  run_option i n interactive [] s h = ground arith
  run_option i n interactive (b ∷ rest) s h = ground arith
  run_option i n version [] s h = ground arith
  run_option i n version (b ∷ rest) s h = ground arith
  run_option i n (exec_attached c cs) [] s h = ground arith
  run_option i n (exec_attached c cs) (b ∷ rest) s h = ground arith
  run_option i n (require_attached c cs) [] s h = ground arith
  run_option i n (require_attached c cs) (b ∷ rest) s h = ground arith
  run_option i n (exec_separate w) rest s h = ground arith
  run_option i n (require_separate w) rest s h = ground arith

  -- The walk ends at the script, or runs over a lone `--`.
  run_ending :
      (i n : ℕ) (e : Ending) (s : S)
      → n ≡ i + extra e
      → run_from dostring dolibrary i n (ending_words e) s ≡ some (0, s)
  unfolding run_from
  run_ending i n nothing_more s h = refl
  run_ending i n dashes s h = ground arith
  run_ending i n (dashes_script w []) s h = ground arith
  run_ending i n (dashes_script w (a ∷ args)) s h = ground arith
  run_ending i n (script w []) s h = ground arith
  run_ending i n (script w (a ∷ args)) s h = ground arith

  words_pos : (o : Opt) → 1 ≤ length (words o)
  words_pos interactive = omega arith
  words_pos version = omega arith
  words_pos (exec_attached c cs) = omega arith
  words_pos (require_attached c cs) = omega arith
  words_pos (exec_separate w) = omega arith
  words_pos (require_separate w) = omega arith

  run_from-perform :
      (i n : ℕ) (os : List Opt) (e : Ending) (s : S)
      → n ≡ i + width os + extra e
      → run_from dostring dolibrary i n (command_words os e) s ≡ some (perform os s)
  unfolding perform continue_if_zero
  run_from-perform i n [] e s h = run_ending i n e s (omega arith)
  run_from-perform i n (o ∷ os) e s h =
      run_option i n o (command_words os e) s (omega (arith, words_pos o))
      ∙ ground (arith, run_from-perform (i + length (words o)) n os e (act o s).1 (omega arith))

length-command_words :
    (os : List Opt) (e : Ending) → length (command_words os e) ≡ width os + length (ending_words e)
length-command_words [] e = omega arith
length-command_words (o ∷ os) e =
    omega (arith, length-append (words o) (command_words os e), length-command_words os e)

walk_end_lem :
    (prog : Bytes) (os : List Opt) (e : Ending)
    → walk_end (script_index 1 os e) (length (prog ∷ command_words os e)) ≡ 1 + width os + extra e
walk_end_lem prog os nothing_more = omega (arith, length-command_words os nothing_more)
walk_end_lem prog os dashes = omega (arith, length-command_words os dashes)
walk_end_lem prog os (dashes_script w args) = ground arith
walk_end_lem prog os (script w args) = ground arith

module _ {ℓ} {S : Type ℓ} (dostring dolibrary : Bytes → S → ℕ × S) where
  pub runargs-Described :
      (prog : Bytes) (args : List Bytes) (r : ℕ) (s : S) (d : Described args)
      → r ≡ script_index 1 d.options d.ending
      → runargs dostring dolibrary (prog ∷ args) (walk_end r (length (prog ∷ args))) s
        ≡ some (perform dostring dolibrary d.options s)
  unfolding runargs
  runargs-Described prog args r s d at =
      let words = prog ∷ command_words d.options d.ending in
      let e : length (prog ∷ args) ≡ length words =
        ap (λ (l : List Bytes). length (prog ∷ l)) d.splits in
      let n : walk_end r (length (prog ∷ args)) ≡ 1 + width d.options + extra d.ending =
        ap (λ (i : ℕ). walk_end i (length (prog ∷ args))) at
        ∙ ap (walk_end (script_index 1 d.options d.ending)) e
        ∙ walk_end_lem prog d.options d.ending in
      ap (λ (l : List Bytes). run_from dostring dolibrary 1 (walk_end r (length (prog ∷ args))) l s)
        d.splits
      ∙ run_from-perform dostring dolibrary 1 _ d.options d.ending s n

  -- After `collectargs` has accepted the arguments, `runargs` fails no assertion, whatever the two
  -- calls do: it performs the `-e` and `-l` options in front of the script in order, up to the first
  -- that fails, and returns 0 or, for such a failure, 1. The arguments hold no NUL byte.
  pub runargs_performs :
      (prog : Bytes) (args : List Bytes) (r : ℕ) (g : Flags) (s : S)
      → AreNulFree args
      → collectargs (prog ∷ args) ≡ (some r, g)
      → (d : Described args) × (runargs dostring dolibrary
            (prog ∷ args)
            (walk_end r (length (prog ∷ args)))
            s
          ≡ some (perform dostring dolibrary d.options s))
  runargs_performs prog args r g s free h =
      let (d, at, _) = collectargs_only prog args r g free h in
      (d, runargs-Described prog args r s d at)
