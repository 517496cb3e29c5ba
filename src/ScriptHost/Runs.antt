-- ===== src/ScriptHost/Runs.antt =====
-- What `runFile` and `runString` of vrjugglua/LuaScript.cpp report, print and leave on the stack.
use vr_jugglua.Prelude.{
  ℕ, ◌≡◌, refl, ◌⊎◌, inl, inr, Bool, true, false, List, [], ◌∷◌, ◌++◌, none, some, Bytes, codes,
  arith, if◌then◌else◌, Option-cases,
}
use vr_jugglua.Lua.{Api}
use vr_jugglua.ScriptHost.{
  Script, Bindings, is_valid, no_valid_state, Result, returned, thrown, do_print, error_detail,
  handle_lua_return_code, load_and_call, run_string,
}

module _ (lua : Api) where
  open lua use {State, Value, stack, loadbuffer}

  -- The text went to the function set by `setPrintFunction`, or, where none is set, to the log.
  abbrev pub Told : Bytes → Script lua → Script lua → Type 0
  Told text script q =
      (q.printed
        ≡ (if script.has_print_function then script.printed ++ (text ∷ []) else script.printed))
      × (q.logged
          ≡ (if script.has_print_function then script.logged else script.logged ++ (text ∷ [])))

  -- `true`, with the results above the stack as it was, and nothing printed; or `false`, with the
  -- error value above it, and the failure told.
  abbrev pub Ran : Bindings lua → Bytes → State → Script lua → Bool → Script lua → Type 0
  Ran luabind failure s script b q =
      (t : State) × (q.state ≡ some t)
      × (((b ≡ true)
            × (q.printed ≡ script.printed)
            × (results : List Value) × (stack t ≡ results ++ stack s))
          ⊎ ((b ≡ false)
              × (e : Value) × (stack t ≡ e ∷ stack s)
              × Told (failure ++ error_detail lua (luabind.cast_string e)) script q))

  -- Nothing can be run without a Lua state; with one, the run is reported.
  abbrev pub Reported : Bindings lua → Bytes → Script lua → Result (Bool × Script lua) → Type 0
  Reported luabind failure script (returned (b, q)) =
      (s : State) × (script.state ≡ some s) × Ran luabind failure s script b q
  Reported luabind failure script (thrown e) = (script.state ≡ none) × (e ≡ no_valid_state)

  state-handle_lua_return_code :
      (luabind : Bindings lua) (failure success : Bytes) (code : ℕ) (t : State)
      (script : Script lua)
      → (handle_lua_return_code lua luabind code failure success t script).1.state ≡ some t
  unfolding handle_lua_return_code do_print
  state-handle_lua_return_code luabind failure [] code t script = ground arith
  state-handle_lua_return_code luabind failure (c ∷ cs) code t script = ground arith

  some-IsValid : (q : Script lua) (t : State) → q.state ≡ some t → is_valid lua q ≡ true
  unfolding is_valid
  some-IsValid q t h = rw h refl

  -- A string runs without an exception in a script that has a state, which it keeps.
  pub run_string-IsValid :
      (luabind : Bindings lua) (text : Bytes) (silent : Bool) (script : Script lua)
      → is_valid lua script ≡ true
      → (ok : Bool) × (q : Script lua) × (run_string lua luabind text silent script
          ≡ returned (ok, q))
        × (is_valid lua q ≡ true)
  unfolding is_valid run_string
  run_string-IsValid luabind text silent script h = elim (Option-cases script.state) [
    | inl missing ↦ absurd (ground (arith, missing, h))
    | inr (s, found) ↦
        let (code, t) = load_and_call lua (loadbuffer text text s) in
        let done =
          handle_lua_return_code lua luabind code
            (codes "vrjLua ERROR: Could not run provided Lua string.")
            (if silent then [] else codes "Lua string executed successfully.") t script in
        rw found (
          done.0,
          done.1,
          refl,
          some-IsValid done.1 t (
              state-handle_lua_return_code luabind
                (codes "vrjLua ERROR: Could not run provided Lua string.")
                (if silent then [] else codes "Lua string executed successfully.") code t script),
        )
  ]
