-- ===== src/NavMain/Outcome.antt =====
-- How a run of src/QTNavMain.cpp ends, and which arguments its script sees.
use vr_jugglua.Prelude.{
  ℕ, zero, suc, ◌+◌, ◌≡◌, refl, sym, ap, ap₂, ◌∙◌, ◌⊎◌, inl, inr, Bool, true, false, ◌||◌, List, [],
  ◌∷◌, ◌++◌, Option, none, some, Bytes, codes, equal, if◌then◌else◌, Bool-cases, arith, ◌==◌,
  get_elem?,
}
use mathlib.Core.List.{append_assoc, append-nil}
use vr_jugglua.Lua.{Api}
use vr_jugglua.CircularBuffer.{CircularBuffer}
use vr_jugglua.ScriptHost.{Script, Bindings, Result, returned, thrown, require_module, is_valid}
use vr_jugglua.Console.{
  Global, no_global, not_a_buffer, buffer, get_run_buf_from_lua_global, console_is_valid,
}
use vr_jugglua.Kernel.{start_kernel, stop_kernel, wait_for_kernel_stop}
use vr_jugglua.NavMain.{
  collect_args, table_from, arg_table, Run, Ended, exits, raises, fails_assertion, Setting, prepare,
  with_run_buf, with_module, main,
}

abbrev pub stub_word : Bytes
stub_word = codes "--stub"

abbrev pub has_stub : List Bytes → Bool
has_stub [] = false
has_stub (a ∷ rest) = equal a stub_word || has_stub rest

abbrev pub without_stub : List Bytes → List Bytes
without_stub [] = []
without_stub (a ∷ rest) = if equal a stub_word then without_stub rest else a ∷ without_stub rest

collect_args_lem :
    (arguments : List Bytes) (b : Bool) (args : List Bytes)
    → collect_args arguments (b, args) ≡ (b || has_stub arguments, args ++ without_stub arguments)
unfolding collect_args
collect_args_lem [] b args =
    ap₂ (λ (x : Bool) (y : List Bytes). (x, y)) (ground arith) (sym (append-nil args))
collect_args_lem (a ∷ rest) b args = elim (Bool-cases (equal a stub_word)) [
  | inl stub ↦ rw stub (
      collect_args_lem rest true args
      ∙ ap (λ (x : Bool). (x, args ++ without_stub rest)) {x = true} (ground arith))
  | inr other ↦ rw other (
      collect_args_lem rest b (args ++ (a ∷ []))
      ∙ ap (λ (y : List Bytes). (b || has_stub rest, y))
          (append_assoc args (a ∷ []) (without_stub rest)))
]

-- The value of a table at a key.
abbrev pub value_at : ℕ → List (ℕ × Bytes) → Option Bytes
value_at k [] = none
value_at k ((i, v) ∷ rest) = if i == k then some v else value_at k rest

table_from_lem :
    (i : ℕ) (args : List Bytes) (k : ℕ) → value_at (i + k) (table_from i args) ≡ get_elem? args k
table_from_lem i [] k = refl
table_from_lem i (a ∷ rest) zero = let here : (i == i + zero) ≡ true = ground arith in rw here refl
table_from_lem i (a ∷ rest) (suc k) =
    let other : (i == i + suc k) ≡ false = ground arith in
    rw other (
      ap (λ (n : ℕ). value_at n (table_from (suc i) rest)) {y = suc i + k} (omega arith)
      ∙ table_from_lem (suc i) rest k)

arg_table_lem :
    (argv0 : Bytes) (args : List Bytes) (k : ℕ)
    → value_at k (arg_table argv0 args) ≡ get_elem? (argv0 ∷ args) k
unfolding arg_table
arg_table_lem argv0 args zero = refl
arg_table_lem argv0 args (suc k) =
    let other : (0 == suc k) ≡ false = ground arith in
    rw other (
      ap (λ (n : ℕ). value_at n (table_from 1 args)) {y = 1 + k} (omega arith)
      ∙ table_from_lem 1 args k)

module _ (lua : Api) (ring : CircularBuffer) where
  -- The kernel was not called, or it was started, with a valid console, and waited for in the end.
  abbrev pub KernelUse : Setting lua ring → ℕ → Run lua ring → Type 0
  KernelUse setting status r =
      ((r.calls ≡ []) × (status ≡ 1))
      ⊎ ((r.calls
            ≡ start_kernel
              ∷ ((if setting.is_running then stop_kernel ∷ [] else [])
                  ++ (wait_for_kernel_stop ∷ [])))
          × (console_is_valid lua ring r.console ≡ true)
          × (status ≡ (if setting.thread_loop then 0 else 1)))

  -- The end of a run that began rest `begun`.
  abbrev pub Finished : Setting lua ring → Run lua ring → Ended lua ring → Type 0
  Finished setting begun (exits status r) =
      KernelUse setting status r × (r.args ≡ begun.args) × (r.stub_console ≡ begun.stub_console)
  Finished setting begun (raises e r) =
      (r.calls ≡ []) × (r.args ≡ begun.args) × (r.stub_console ≡ begun.stub_console)
  Finished setting begun (fails_assertion r) = ⊥

  with_run_buf-Finished :
      (setting : Setting lua ring) (r : Run lua ring)
      → r.calls ≡ []
      → Finished setting r (
          with_run_buf lua ring setting r
            (get_run_buf_from_lua_global lua ring setting.runbuf r.console))
  with_run_buf-Finished setting r fresh =
      go setting.runbuf (Bool-cases (is_valid lua r.console.script))
    where
      go :
          (global : Global lua ring)
          → (is_valid lua r.console.script ≡ true) ⊎ (is_valid lua r.console.script ≡ false)
          → Finished setting r (
              with_run_buf lua ring setting r
                (get_run_buf_from_lua_global lua ring global r.console))
      go _ (inr invalid) = unfold get_run_buf_from_lua_global in simp invalid (fresh, refl, refl)
      go no_global (inl valid) =
          unfold get_run_buf_from_lua_global in simp valid (fresh, refl, refl)
      go not_a_buffer (inl valid) =
          unfold get_run_buf_from_lua_global in simp valid (fresh, refl, refl)
      go (buffer b) (inl valid) =
          unfold get_run_buf_from_lua_global console_is_valid in
          simp valid (inr (refl, refl, refl), refl, refl)

  with_module-Finished :
      (setting : Setting lua ring) (r : Run lua ring) (m : Result (Bool × Script lua))
      → r.calls ≡ []
      → Finished setting r (with_module lua ring setting r m)
  with_module-Finished setting r (thrown e) fresh = (fresh, refl, refl)
  with_module-Finished setting r (returned (true, script)) fresh =
      with_run_buf-Finished setting (record r { console = record r.console { script = script } })
        fresh
  with_module-Finished setting r (returned (false, script)) fresh =
      elim (Bool-cases setting.without_terminal) [
        | inl no_terminal ↦ simp no_terminal (inl (fresh, refl), refl, refl)
        | inr terminal ↦ simp terminal (inl (fresh, refl), refl, refl)
      ]

  -- No run fails its assertion. Of its own the program calls the kernel only with a valid console; it
  -- then starts it, and waits for it before it exits, with 0 just where the console's loop returned
  -- true; every other exit has status 1. The table arg holds the program's name at 0 and behind it the
  -- arguments but "--stub", in order, and the console is a stub just where that is among them.
  pub main_lem :
      (luabind : Bindings lua) (setting : Setting lua ring) (argv0 : Bytes) (arguments : List Bytes)
      (script : Script lua)
      → let begun = prepare lua ring setting argv0 arguments script in
        Finished setting begun (main lua ring luabind setting argv0 arguments script)
        × ((k : ℕ) → value_at k begun.args ≡ get_elem? (argv0 ∷ without_stub arguments) k)
        × (begun.stub_console ≡ has_stub arguments)
  unfolding main prepare
  main_lem luabind setting argv0 arguments script =
      let collected = collect_args_lem arguments false [] in
      (
        with_module-Finished setting (prepare lua ring setting argv0 arguments script)
            (require_module lua luabind (codes "osgnav-testbed") true script) refl,
        λ k.
            ap (λ (c : Bool × List Bytes). value_at k (arg_table argv0 c.1)) collected
            ∙ arg_table_lem argv0 (without_stub arguments) k,
        ap (λ (c : Bool × List Bytes). c.0) collected,
      )
