-- ===== src/ScriptHost.antt =====
-- `LuaScript` of vrjugglua/LuaScript.cpp: a Lua state, which may be missing, in which files, strings,
-- modules and functions are run.
pub mod Construction
pub mod Runs
use vr_jugglua.Prelude.{
  ℕ, Bool, true, false, not, List, [], ◌∷◌, ◌++◌, Option, none, some, Bytes, codes, ◌==◌,
  if◌then◌else◌,
}
use vr_jugglua.Lua.{Api, top}

-- `NoValidLuaState`, an exception of the bindings' library, `std::logic_error` and `std::runtime_error`, with their texts.
pub data Exception : Type 0 where
  no_valid_state : Exception
  library_error logic_error runtime_error : Bytes → Exception

pub data Result {ℓ} (A : Type ℓ) : Type ℓ where
  returned : A → Result A
  thrown : Exception → Result A

module _ (lua : Api) where
  open lua use {State, Value, push, loadfile, loadbuffer, pcall}

  -- `_state`, the function set by `setPrintFunction` (whether one is set), what it got, and what went to the
  -- log instead.
  pub record Script : Type 0 where
    pub state : Option State
    pub has_print_function : Bool
    pub printed : List Bytes
    pub logged : List Bytes

  -- luabind, another project's code: the text of `object_cast<std::string>`, which throws for other
  -- values (none); a call of a global function by name with string arguments, which returns the
  -- function's first result as a Boolean, or the text of the exception.
  pub record Bindings : Type 0 where
    pub cast_string : Value → Option Bytes
    pub call_function : Bytes → List Bytes → State → Bool × State
    pub call_error : Bytes → List Bytes → State → Option Bytes

  unfoldable pub is_valid : Script → Bool
  is_valid script = elim script.state [ none ↦ false | some s ↦ true ]

  unfoldable pub do_print : Bytes → Script → Script
  do_print text script =
      if script.has_print_function
      then record script { printed = script.printed ++ (text ∷ []) }
      else record script { logged = script.logged ++ (text ∷ []) }

  abbrev pub log : Bytes → Script → Script
  log text script = record script { logged = script.logged ++ (text ∷ []) }

  abbrev pub with_lua : State → Script → Script
  with_lua s script = record script { state = some s }

  abbrev pub error_detail : Option Bytes → Bytes
  error_detail none = codes "  Furthermore, we couldn't get error details from Lua."
  error_detail (some text) = codes "  Lua returned this error message: " ++ text

  -- The state is that of the script; the error value stays on its stack.
  unfoldable pub handle_lua_return_code :
      Bindings → ℕ → Bytes → Bytes → State → Script → Bool × Script
  unfolding do_print
  handle_lua_return_code luabind code failure success s script =
      if not (code == 0)
      then (
        false,
        do_print (failure ++ error_detail (luabind.cast_string (top lua s))) (with_lua s script),
      )
      else (
        true,
        elim success [ [] ↦ with_lua s script | c ∷ cs ↦ log (c ∷ cs) (with_lua s script) ],
      )

  -- `luaL_dofile` and `luaL_dostring`: `load || lua_pcall(L, 0, LUA_MULTRET, 0)`.
  abbrev pub load_and_call : ℕ × State → ℕ × State
  load_and_call (status, s) =
      if not (status == 0)
      then (1, s)
      else (let (called, t) = pcall 0 none 0 s in (if called == 0 then 0 else 1, t))

  unfoldable pub run_file : Bindings → Bytes → Bool → Script → Result (Bool × Script)
  unfolding handle_lua_return_code
  run_file luabind name silent script = elim script.state [
    | none ↦ thrown no_valid_state
    | some s ↦
        let (code, t) = load_and_call (loadfile (some name) s) in
        returned (
          handle_lua_return_code luabind code
            (codes "vrjLua ERROR: Could not run Lua file " ++ (name ++ codes "."))
            (if silent then [] else codes "Successfully ran Lua file " ++ name) t script)
  ]

  unfoldable pub run_string : Bindings → Bytes → Bool → Script → Result (Bool × Script)
  unfolding handle_lua_return_code
  run_string luabind text silent script = elim script.state [
    | none ↦ thrown no_valid_state
    | some s ↦
        let (code, t) = load_and_call (loadbuffer text text s) in
        returned (
          handle_lua_return_code luabind code
            (codes "vrjLua ERROR: Could not run provided Lua string.")
            (if silent then [] else codes "Lua string executed successfully.") t script)
  ]

  unfoldable pub require_module : Bindings → Bytes → Bool → Script → Result (Bool × Script)
  unfolding do_print
  require_module luabind name silent script = elim script.state [
    | none ↦ thrown no_valid_state
    | some s ↦
        let (result, t) = luabind.call_function (codes "require") (name ∷ []) s in
        let after = with_lua t script in
        elim (luabind.call_error (codes "require") (name ∷ []) s) [
          | some what ↦ returned (
            false,
            do_print
                (codes "vrjLua ERROR: Could not load Lua module "
                  ++ (name ++ (codes " - error: " ++ what)))
                after,
          )
          | none ↦ returned (
            true,
            (if silent then after else log (codes "Successfully loaded Lua module " ++ name) after),
          )
        ]
  ]

  -- The message of success stands behind the `return`, and is never logged.
  unfoldable pub call : Bindings → Bytes → Script → Result (Bool × Script)
  call luabind name script = elim script.state [
    | none ↦ thrown no_valid_state
    | some s ↦
        let (result, t) = luabind.call_function name [] s in
        elim (luabind.call_error name [] s) [
          | some what ↦ thrown (library_error what)
          | none ↦ returned (result, with_lua t script)
        ]
  ]
