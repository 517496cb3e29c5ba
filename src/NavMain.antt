-- ===== src/NavMain.antt =====
-- The navigation program src/QTNavMain.cpp: its arguments, and the stages of its run.
pub mod AnyConsole
pub mod Fltk
pub mod Outcome
pub mod Qt
use vr_jugglua.Prelude.{
  ℕ, zero, suc, ◌+◌, Bool, true, false, not, List, [], ◌∷◌, ◌++◌, Option, none, some, Bytes, codes,
  equal, if◌then◌else◌,
}
use vr_jugglua.Lua.{Api}
use vr_jugglua.CircularBuffer.{CircularBuffer}
use vr_jugglua.ScriptHost.{Script, Bindings, Exception, Result, returned, thrown, require_module}
use vr_jugglua.Console.{
  Console, Global, new_console, append_to_display, capture_std_out, capture_std_err,
  get_run_buf_from_lua_global, console_is_valid,
}
use vr_jugglua.Kernel.{Call, start_kernel, stop_kernel, wait_for_kernel_stop}

-- The loop over the arguments behind the first, with `stubConsole` and `args` so far.
unfoldable pub collect_args : List Bytes → Bool × List Bytes → Bool × List Bytes
collect_args [] found = found
collect_args (arg ∷ rest) (stub_console, args) =
    if equal arg (codes "--stub")
    then collect_args rest (true, args)
    else collect_args rest (stub_console, args ++ (arg ∷ []))

-- The table arg, from index `i` on.
abbrev pub table_from : ℕ → List Bytes → List (ℕ × Bytes)
table_from i [] = []
table_from i (arg ∷ args) = (i, arg) ∷ table_from (suc i) args

unfoldable pub arg_table : Bytes → List Bytes → List (ℕ × Bytes)
arg_table argv0 args = (0, argv0) ∷ table_from 1 args

module _ (lua : Api) (ring : CircularBuffer) where
  -- The console, the table arg, whether the console is a stub, the calls of the kernel, whether the
  -- console's action was disabled, and how often its loop was run.
  pub record Run : Type 0 where
    pub console : Console lua ring
    pub args : List (ℕ × Bytes)
    pub stub_console : Bool
    pub calls : List Call
    pub action_disabled : Bool
    pub loops : ℕ

  pub data Ended : Type 0 where
    exits : ℕ → Run → Ended
    raises : Exception → Run → Ended
    fails_assertion : Run → Ended

  -- What the program is given from outside: whether it is built without a terminal, the global runbuf
  -- once the module is loaded, what the console's loop returns, and whether the kernel runs behind it.
  pub record Setting : Type 0 where
    pub without_terminal : Bool
    pub runbuf : Global lua ring
    pub thread_loop : Bool
    pub is_running : Bool

  unfoldable pub prepare : Setting → Bytes → List Bytes → Script lua → Run
  unfolding collect_args arg_table new_console capture_std_out capture_std_err
  prepare setting argv0 arguments script =
      let (stub, args) = collect_args arguments (false, []) in
      let console = new_console lua ring script (not stub) in
      record {
        console =
            if setting.without_terminal
            then capture_std_err lua ring (capture_std_out lua ring console)
            else console;
        args = arg_table argv0 args;
        stub_console = stub;
        calls = [];
        action_disabled = false;
        loops = 0;
      }

  -- The module could not be loaded.
  abbrev pub give_up : Setting → Run → Ended
  give_up setting r = exits 1 (
      if setting.without_terminal
      then record r {
        console =
            append_to_display lua ring
              (codes "-- Application will not function properly - exit when finished viewing log.")
              (append_to_display lua ring
                (codes
                  "-- ERROR: Could not load osgnav-testbed module: see View->Show debug log for potential clues.")
                r.console);
        action_disabled = true;
        loops = r.loops + 1;
      }
      else r)

  -- The kernel runs while the console does.
  abbrev pub run_all : Setting → Run → Ended
  run_all setting r = exits (if setting.thread_loop then 0 else 1) (record r {
    calls =
        start_kernel
        ∷ ((if setting.is_running then stop_kernel ∷ [] else []) ++ (wait_for_kernel_stop ∷ []));
    loops = r.loops + 1;
  })

  abbrev pub with_run_buf : Setting → Run → Result (Bool × Console lua ring) → Ended
  with_run_buf setting r (thrown e) = raises e r
  with_run_buf setting r (returned (ok, c)) =
      if console_is_valid lua ring c
      then run_all setting (record r { console = c })
      else fails_assertion (record r { console = c })

  abbrev pub with_module : Setting → Run → Result (Bool × Script lua) → Ended
  with_module setting r (thrown e) = raises e r
  with_module setting r (returned (false, script)) =
      give_up setting (record r { console = record r.console { script = script } })
  with_module setting r (returned (true, script)) =
      let loaded = record r { console = record r.console { script = script } } in
      with_run_buf setting loaded
        (get_run_buf_from_lua_global lua ring setting.runbuf loaded.console)

  -- `script` is the new script, whose print function is not set yet.
  unfoldable pub main : Bindings lua → Setting → Bytes → List Bytes → Script lua → Ended
  unfolding prepare console_is_valid get_run_buf_from_lua_global
  main luabind setting argv0 arguments script =
      with_module setting (prepare setting argv0 arguments script)
        (require_module lua luabind (codes "osgnav-testbed") true script)
