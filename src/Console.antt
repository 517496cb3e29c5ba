-- ===== src/Console.antt =====
-- `LuaConsole` and its `StubConsole` of vrjugglua/LuaConsole.cpp: chunks and files go to a run buffer, and
-- what becomes of them is shown.
pub mod Adding
pub mod Comments
pub mod Returning
pub mod Session
pub mod Stub
use vr_jugglua.Prelude.{
  ℕ, Bool, true, false, not, ◌&&◌, List, [], ◌∷◌, ◌++◌, Option, none, some, Bytes, codes,
  if◌then◌else◌,
}
use vr_jugglua.Lua.{Api}
use vr_jugglua.CircularBuffer.{CircularBuffer}
use vr_jugglua.RunBuffer.{Turn, new_run_buffer}
use vr_jugglua.ScriptHost.{
  Script, Bindings, Exception, runtime_error, Result, returned, thrown, is_valid, run_file,
  run_string, require_module,
}
use vr_jugglua.SyncBuffer.{
  Operation, then_do, Cluster, SyncBuffer, sync_add_string, sync_run_buffer,
}

module _ (lua : Api) (ring : CircularBuffer) where
  -- `_script`, `_runbuf`, whether this is the process's console, what was appended to its display,
  -- whether it supports other logging, whether that is on, and whether its streams go to its log.
  pub record Console : Type 0 where
    pub script : Script lua
    pub runbuf : Option (SyncBuffer lua ring)
    pub is_current : Bool
    pub display : List Bytes
    pub supports_alternate_logging : Bool
    pub logging_active : Bool
    pub out_captured : Bool
    pub err_captured : Bool

  unfoldable pub new_console : Script lua → Bool → Console
  new_console script supports = record {
    script = script;
    runbuf = none;
    is_current = true;
    display = [];
    supports_alternate_logging = supports;
    logging_active = false;
    out_captured = false;
    err_captured = false;
  }

  abbrev pub append_to_display : Bytes → Console → Console
  append_to_display text c = record c { display = c.display ++ (text ∷ []) }

  -- `consolePrintFunction` on the console of the process, if there is one; `replace_all text search format`
  -- is Boost's.
  unfoldable pub console_print :
      (Bytes → Bytes → Bytes → Bytes) → Bytes → Option Console → Option Console
  console_print replace_all str none = none
  console_print replace_all str (some c) =
      let modified = replace_all str (codes "\n") (codes "\n-- ") in
      some (append_to_display (codes "-- " ++ modified) c)

  unfoldable pub destroy : Console → Console
  destroy c =
      if c.is_current
      then record c { is_current = false; script = record c.script { has_print_function = false } }
      else c

  -- The global runbuf of the Lua state: missing or nil; something that the cast refuses; a run buffer.
  pub data Global : Type 0 where
    no_global not_a_buffer : Global
    buffer : SyncBuffer lua ring → Global

  unfoldable pub get_run_buf_from_lua_global : Global → Console → Result (Bool × Console)
  get_run_buf_from_lua_global global c =
      if not (is_valid lua c.script)
      then thrown (runtime_error (codes "Could not get a valid lua state pointer!"))
      else elim global [
        | no_global ↦ thrown (runtime_error (codes "Could not get a lua global named runbuf!"))
        | not_a_buffer ↦ thrown (
            runtime_error
              (codes "Could not get a valid run buffer pointer from lua - cast failed!"))
        | buffer b ↦ returned (true, record c { runbuf = some b })
      ]

  -- `SynchronizedRunBuffer(_script)`; `console` is what the process's console is then.
  unfoldable pub create_run_buf : Option Bool → Console → Bool × Console
  create_run_buf console c = (
    true,
    record c {
      runbuf = some (record {
        initialised = false;
        run_buf = new_run_buffer lua ring 10 false c.script;
        early_birds = [];
        state = c.script.state;
        warnings = [];
        console = console;
      });
    },
  )

  unfoldable pub console_is_valid : Console → Bool
  console_is_valid c = elim c.runbuf [ none ↦ false | some b ↦ is_valid lua c.script ]

  abbrev pub shown_text : Bool → Bytes → Bytes
  shown_text true str = str ++ codes "\n"
  shown_text false str =
      codes "-- Failed attempting to add the following code to the buffer:\n--[[\n"
      ++ (str ++ codes "\n]]--\n")

  -- The addition does not block.
  unfoldable pub console_add_string : Cluster → Bool → Bytes → Console → Operation (Bool × Console)
  console_add_string cluster acquired str c = elim c.runbuf [
    | none ↦
        some (thrown (runtime_error (codes "Could not get the run buffer to add a string to!")))
    | some b ↦
        then_do (sync_add_string lua ring cluster acquired [] str false b)
          (λ (r : Bool × SyncBuffer lua ring). some (
            returned
              (r.0, append_to_display (shown_text r.0 str) (record c { runbuf = some r.1 }))))
  ]

  abbrev pub console_file_chunk : Bytes → Bytes
  console_file_chunk fn = codes "dofile([[" ++ (fn ++ codes "]])\n")

  unfoldable pub console_add_file : Cluster → Bool → Bytes → Console → Operation (Bool × Console)
  unfolding console_add_string
  console_add_file cluster acquired fn c = elim c.runbuf [
    | none ↦ some (thrown (runtime_error (codes "Could not get the run buffer to add a file to!")))
    | some b ↦ console_add_string cluster acquired (console_file_chunk fn) c
  ]

  unfoldable pub capture_std_out : Console → Console
  capture_std_out c =
      if c.supports_alternate_logging
      then record c { logging_active = true; out_captured = true }
      else c

  unfoldable pub capture_std_err : Console → Console
  capture_std_err c =
      if c.supports_alternate_logging
      then record c { logging_active = true; err_captured = true }
      else c

  abbrev pub with_script : Result (Bool × Script lua) → Console → Result (Bool × Console)
  with_script (thrown e) c = thrown e
  with_script (returned r) c = returned (r.0, record c { script = r.1 })

  unfoldable pub run_file_immediately : Bindings lua → Bytes → Console → Result (Bool × Console)
  run_file_immediately luabind fn c = with_script (run_file lua luabind fn true c.script) c

  unfoldable pub run_string_immediately : Bindings lua → Bytes → Console → Result (Bool × Console)
  run_string_immediately luabind str c = with_script (run_string lua luabind str false c.script) c

  unfoldable pub require_module_immediately :
      Bindings lua → Bytes → Console → Result (Bool × Console)
  require_module_immediately luabind name c =
      with_script (require_module lua luabind name true c.script) c

  unfoldable pub console_run_buffer :
      Bindings lua → Cluster → (ℕ → Turn lua ring) → Console → Operation (Bool × Console)
  console_run_buffer luabind cluster turns c = elim c.runbuf [
    | none ↦ some (returned (false, c))
    | some b ↦
        then_do (sync_run_buffer lua ring luabind cluster turns b)
          (λ (r : ℕ × SyncBuffer lua ring). some (returned (true, record c { runbuf = some r.1 })))
  ]

  unfoldable pub console_is_ready : Console → Console
  console_is_ready c = record c { script = record c.script { has_print_function = true } }
