-- ===== src/ScriptHost/Construction.antt =====
-- The constructors of `LuaScript` of vrjugglua/LuaScript.cpp, with `_applyBindings`, the binding of OSG of
-- vrjugglua/binding_detail/BindOsgToLua.inl, and the block on Lua's garbage collector of
-- vrjugglua/LuaGCBlock.h.
pub mod Stages
use vr_jugglua.Prelude.{
  Bool, true, false, not, ◌&&◌, List, [], ◌∷◌, ◌++◌, Option, none, some, Bytes, codes,
  if◌then◌else◌,
}
use mathlib.Core.Option
use vr_jugglua.Lua.{Api}
use vr_jugglua.ScriptHost.{
  Script, Bindings, Exception, no_valid_state, library_error, logic_error, runtime_error, Result,
  returned, thrown, with_lua, require_module,
}

-- The functions that bind something into a Lua state, in their order.
pub data Stage : Type 0 where
  open_luabind bind_class_info update_require_path open_osglua load_openthreads load_osg : Stage
  bind_kernel bind_sonix bind_gadget_interfaces bind_run_buffer bind_vrjlua bind_app_proxy : Stage
  set_pcall_callback : Stage

abbrev pub what : Exception → Bytes
what no_valid_state =
    codes
      "Attempted to perform a LuaScript manipulation on a LuaScript instance without a valid state pointer!"
what (library_error text) = text
what (logic_error text) = text
what (runtime_error text) = text

module _ (lua : Api) where
  open lua use {State, openlibs, stop_gc, restart_gc}

  -- A stage returns (what it returns, if it does) or raises an exception, and leaves a state.
  pub data Ran : Type 0 where
    done : Bool → State → Ran
    raised : Exception → State → Ran

  -- What ends the construction, with what went to the standard error before: an exception,
  -- `std::terminate`, or an error of Lua with a text.
  pub data Failure : Type 0 where
    threw : List Bytes → Exception → Option State → Failure
    terminated : List Bytes → Failure
    lua_raised : List Bytes → Bytes → State → Failure

  pub data Attempt : Type 0 where
    went_on : State → Attempt
    failed : Failure → Attempt

  abbrev pub and_then : Attempt → (State → Attempt) → Attempt
  and_then (went_on s) next = next s
  and_then (failed f) next = failed f

  abbrev pub terminated_texts : Exception → List Bytes
  terminated_texts e =
      (codes "ERROR: Caught an exception trying to load osgwrappers : " ++ what e)
      ∷ codes
          "Make sure you have the osgwrappers installed in their default location with respect to OSG itself."
      ∷ codes "Cannot continue, exiting!"
      ∷ []

  abbrev pub refused_text : Bytes
  refused_text = codes "Failure return code, trying to load wrappers for osg!"

  abbrev pub connect_text : Exception → Bytes
  connect_text e = codes "Caught exception connecting luabind and class_info: " ++ what e

  -- `run` is what the stages do, which are other projects' code or tables of names for them.
  module _ (run : Stage → State → Ran) where
    -- A stage whose result is not looked at.
    abbrev pub call_stage : Stage → State → Attempt
    call_stage stage s = elim (run stage s) [
      | done result t ↦ went_on t
      | raised e t ↦ failed (threw [] e (some t))
    ]

    -- The handler that tells of an exception and throws it again.
    abbrev pub told : Attempt → Attempt
    told (went_on s) = went_on s
    told (failed (threw errors e s)) = failed (threw (errors ++ (connect_text e ∷ [])) e s)
    told (failed (terminated errors)) = failed (terminated errors)
    told (failed (lua_raised errors text s)) = failed (lua_raised errors text s)

    unfoldable pub connect : State → Attempt
    connect s = told (and_then (call_stage open_luabind s) (call_stage bind_class_info))

    -- One call of `osgLua::loadWrapper`.
    abbrev pub load_wrapper : Stage → State → Attempt
    load_wrapper stage s = elim (run stage s) [
      | done loaded t ↦
          if loaded then went_on t else failed (lua_raised (refused_text ∷ []) refused_text t)
      | raised e t ↦ failed (terminated (terminated_texts e))
    ]

    unfoldable pub bind_osg : State → Attempt
    bind_osg s =
        and_then (call_stage open_osglua s)
          (λ (t : State). and_then (load_wrapper load_openthreads t) (load_wrapper load_osg))

    -- `_applyBindings` on a state, up to the module that it requires last.
    unfoldable pub bind_all : State → Attempt
    unfolding connect bind_osg
    bind_all s = and_then (connect s) (λ (s1 : State).
        and_then (call_stage update_require_path s1) (λ (s2 : State).
          and_then (bind_osg s2) (λ (s3 : State).
            and_then (call_stage bind_kernel s3) (λ (s4 : State).
              and_then (call_stage bind_sonix s4) (λ (s5 : State).
                and_then (call_stage bind_gadget_interfaces s5) (λ (s6 : State).
                  and_then (call_stage bind_run_buffer s6) (λ (s7 : State).
                    and_then (call_stage bind_vrjlua s7) (λ (s8 : State).
                      and_then (call_stage bind_app_proxy s8)
                        (call_stage set_pcall_callback)))))))))

    -- The script, or what ended its construction; what went to the standard error before.
    pub data Built : Type 0 where
      built : List Bytes → Script lua → Built
      not_built : List Bytes → Failure → Built

    abbrev pub required : Result (Bool × Script lua) → Script lua → Script lua
    required (thrown e) script = script
    required (returned r) script = r.1

    -- `_applyBindings`; what `requireModule` returns is not looked at.
    unfoldable pub apply_bindings : Bindings lua → Script lua → Built
    unfolding bind_all
    apply_bindings luabind script = elim script.state [
      | none ↦ not_built [] (threw [] no_valid_state none)
      | some s ↦ elim (bind_all s) [
        | failed f ↦ not_built [] f
        | went_on t ↦
            let bound = with_lua lua t script in
            built [] (required (require_module lua luabind (codes "vrjlua-init") true bound) bound)
      ]
    ]

    -- The end of the block on the garbage collector, where the script is bound or an exception leaves it.
    abbrev pub restart : Built → Built
    restart (built errors script) =
        built errors (record script { state = Option.map restart_gc script.state })
    restart (not_built errors (threw told_errors e s)) =
        not_built errors (threw told_errors e (Option.map restart_gc s))
    restart (not_built errors (terminated texts)) = not_built errors (terminated texts)
    restart (not_built errors (lua_raised texts text s)) =
        not_built errors (lua_raised texts text s)

    abbrev pub with_warning : Bytes → Built → Built
    with_warning text (built errors script) = built (text ∷ errors) script
    with_warning text (not_built errors f) = not_built (text ∷ errors) f

    abbrev pub without_state : Script lua → Script lua
    without_state script = record script { state = none }

    -- `LuaScript(create)`; `allocated` is what `luaL_newstate` gives, and `script` has the print function
    -- of the process.
    unfoldable pub new_script : Bool → Option State → Bindings lua → Script lua → Built
    unfolding apply_bindings
    new_script create allocated luabind script =
        if create
        then elim allocated [
          | none ↦
              with_warning
                (codes "Warning: Could not allocate a new Lua state in the LuaScript constructor!")
                (built [] (without_state script))
          | some s ↦ restart (apply_bindings luabind (with_lua lua (openlibs (stop_gc s)) script))
        ]
        else built [] (without_state script)

    -- `LuaScript(state, bind)`, for a state that others own.
    unfoldable pub borrow_script : Option State → Bool → Bindings lua → Script lua → Built
    unfolding apply_bindings
    borrow_script state bind luabind script =
        let borrowed = record script { state = state } in
        let result = if bind then apply_bindings luabind borrowed else built [] borrowed in
        elim state [
          | none ↦
              with_warning (codes "Warning: constructing a LuaScript from a null state pointer!")
                result
          | some s ↦ result
        ]

  -- The warnings of an assignment, and the script behind it; the two scripts share the state.
  unfoldable pub assign : Script lua → Script lua → List Bytes × Script lua
  assign other script = (
    elim other.state [
      | none ↦
          codes
            "Warning: setting a LuaScript equal to another LuaScript with an empty state smart pointer!"
          ∷ []
      | some s ↦ []
    ],
    record script { state = other.state },
  )
