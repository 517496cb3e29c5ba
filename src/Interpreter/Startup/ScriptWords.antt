-- ===== src/Interpreter/Startup/ScriptWords.antt =====
-- What `pmain` hands to `handle_script` for the script that ends the options.
use vr_jugglua.Prelude.{
  ℕ, suc, ◌+◌, ◌-◌, ◌≡◌, ◌≢◌, ap, ◌∙◌, List, [], ◌∷◌, ◌++◌, some, Bytes, codes, arith, length, drop,
  drop-append_add, get_or-drop, get_or, equal_iff,
}
use vr_jugglua.CommandLine.Grammar.{
  Opt, Ending, dashes_script, script, ending_words, command_words, width, words, script_index,
}
use vr_jugglua.Interpreter.Script.{script_file}

drop_options :
    (os : List Opt) (e : Ending) (k : ℕ)
    → drop (width os + k) (command_words os e) ≡ drop k (ending_words e)
drop_options [] e k = ap (λ (n : ℕ). drop n (ending_words e)) (omega arith)
drop_options (o ∷ os) e k =
    ap (λ (n : ℕ). drop n (words o ++ command_words os e)) {y = length (words o) + (width os + k)}
      (omega arith)
    ∙ drop-append_add (words o) (command_words os e) (width os + k)
    ∙ drop_options os e k

-- The arguments of the command line from the one at distance `k` behind the options.
drop_words :
    (prog : Bytes) (os : List Opt) (e : Ending) (n k : ℕ)
    → n ≡ 1 + width os + k
    → drop n (prog ∷ command_words os e) ≡ drop k (ending_words e)
drop_words prog os e n k h =
    ap (λ (m : ℕ). drop m (prog ∷ command_words os e)) {y = suc (width os + k)} (omega arith)
    ∙ drop_options os e k

word_at :
    (prog : Bytes) (os : List Opt) (e : Ending) (n k : ℕ)
    → n ≡ 1 + width os + k
    → get_or (prog ∷ command_words os e) n [] ≡ get_or (drop k (ending_words e)) 0 []
word_at prog os e n k h =
    get_or-drop n (prog ∷ command_words os e) []
    ∙ ap (λ (l : List Bytes). get_or l 0 []) (drop_words prog os e n k h)

dashes_script_lem :
    (prog : Bytes) (os : List Opt) (s : Bytes) (args : List Bytes)
    → let e = dashes_script s args in
      let argv = prog ∷ command_words os e in
      let n = script_index 1 os e in (script_file argv n ≡ some s) × (drop (n + 1) argv ≡ args)
unfolding script_file
dashes_script_lem prog os s args =
    let e = dashes_script s args in
    let n = script_index 1 os e in
    (
      rw (word_at prog os e n 1 (omega arith), word_at prog os e (n - 1) 0 (omega arith))
          (ground (arith, equal_iff (codes "--") (codes "--"))),
      drop_words prog os e (n + 1) 2 (omega arith),
    )

script_lem :
    (prog : Bytes) (os : List Opt) (s : Bytes) (args : List Bytes)
    → s ≢ codes "-"
    → let e = script s args in
      let argv = prog ∷ command_words os e in
      let n = script_index 1 os e in (script_file argv n ≡ some s) × (drop (n + 1) argv ≡ args)
unfolding script_file
script_lem prog os s args ne =
    let e = script s args in
    let n = script_index 1 os e in
    (
      rw (word_at prog os e n 0 (omega arith)) (ground (arith, equal_iff s (codes "-"))),
      drop_words prog os e (n + 1) 1 (omega arith),
    )

-- The index that the scan returns is that of the script: its arguments are those behind it, and its file
-- is the one named. So it is for a script `s` behind `--`, whatever its name, and for a script `t` that no
-- `--` precedes and that is not named `-`.
script_words_lem :
    (prog : Bytes) (os : List Opt) (s t : Bytes) (args : List Bytes)
    → t ≢ codes "-"
    → (let behind = dashes_script s args in
        let argv = prog ∷ command_words os behind in
        let n = script_index 1 os behind in
        (script_file argv n ≡ some s) × (drop (n + 1) argv ≡ args))
      × (let plain = script t args in
          let argv = prog ∷ command_words os plain in
          let n = script_index 1 os plain in
          (script_file argv n ≡ some t) × (drop (n + 1) argv ≡ args))
script_words_lem prog os s t args ne =
    (dashes_script_lem prog os s args, script_lem prog os t args ne)
