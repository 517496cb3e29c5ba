-- ===== src/Interpreter/Script/Outcome.antt =====
-- How `handle_script` ends: a script that ran, or one error shown.
use vr_jugglua.Prelude.{ℕ, ◌+◌, ◌≡◌, ◌≢◌, ◌⊎◌, List, ◌++◌, Bytes, codes, drop}
use vr_jugglua.Lua.{Api, Laws}
use vr_jugglua.Interpreter.{Process}
use vr_jugglua.Interpreter.Calls.{ErrorShown}
use vr_jugglua.Interpreter.Script.{getargs}
use vr_jugglua.Interpreter.Script.Arguments.{argument_values, HasArguments, getargs_lem}

module _ (lua : Api) where
  open lua use {State, Value, stack, setglobal}

  -- The state in which the script's file is loaded.
  abbrev pub with_arg : List Bytes → ℕ → State → State
  with_arg argv n s = setglobal (codes "arg") (getargs lua argv n s).1

  -- With result 0 the script has run and left its results; with any other result one error value was
  -- shown, that of the loader or of the script.
  abbrev pub ScriptEnded : Process lua → ℕ → Process lua → Type 0
  ScriptEnded p r q =
      ((results : List Value) × (r ≡ 0)
        × (stack q.state ≡ results ++ stack p.state)
        × (q.stderr ≡ p.stderr))
      ⊎ ((v : Value) × (r ≢ 0) × ErrorShown lua p v (stack p.state) q)

module _ (lua : Api) (laws : Laws lua) where
  open lua use {State, Value, stack, setglobal, global, insert, pop, loadfile}

  -- Before the script is loaded its arguments lie on the stack in order, and the global `arg` is a
  -- table that holds each argument of the command line under its index less the script's.
  pub with_arg_lem :
      (argv : List Bytes) (n : ℕ) (s : State)
      → (stack (with_arg lua argv n s) ≡ argument_values lua (drop (n + 1) argv) ++ stack s)
        × HasArguments lua
            (with_arg lua argv n s)
            (global (with_arg lua argv n s) (codes "arg"))
            n
            argv
  with_arg_lem argv n s =
      let (_, (t, laid, has)) = getargs_lem lua laws argv n s in
      let (below, is) = laws.stack-setglobal (codes "arg") (getargs lua argv n s).1 t _ laid in
      (below, λ i a e. rw (is, laws.element-setglobal) (has i a e))
