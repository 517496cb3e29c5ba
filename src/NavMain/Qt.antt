-- ===== src/NavMain/Qt.antt =====
-- The navigation program src/QTNavMain.cpp, run with the loop of its window, or with the console that
-- `--stub` asks for.
pub mod Behaving
pub mod Ending
pub mod Stages
use vr_jugglua.Prelude.{
  ℕ, Bool, true, false, List, [], ◌∷◌, ◌++◌, Option, none, some, Bytes, codes, if◌then◌else◌,
}
use vr_jugglua.Lua.{Api}
use vr_jugglua.CircularBuffer.{CircularBuffer}
use vr_jugglua.ScriptHost.{Script, Bindings, Exception, Result, returned, thrown, require_module}
use vr_jugglua.SyncBuffer.{Operation, Cluster}
use vr_jugglua.Console as Base
use vr_jugglua.Console.{
  Console, Global, capture_std_out, capture_std_err, get_run_buf_from_lua_global, console_is_valid,
}
use vr_jugglua.Console.Stub.{
  StubConsole, stub_call, stub_thread_loop, stub_append_to_display, stub_disable_action,
  destroy_stub,
}
use vr_jugglua.CodeInput.{Qt}
use vr_jugglua.Kernel.{Call, start_kernel, stop_kernel, wait_for_kernel_stop}
use vr_jugglua.QtConsole as Window
use vr_jugglua.QtConsole.{QtConsole}
use vr_jugglua.QtConsole.Events.{Event, exec}
use vr_jugglua.NavMain.AnyConsole.{AnyConsole}

module _ (lua : Api) (ring : CircularBuffer) where
  abbrev pub stub_console : AnyConsole lua ring
  stub_console = record {
    Window = StubConsole lua ring;
    base = λ s. s.console;
    with_base = λ c s. record s { console = c };
    with_call = stub_call lua ring;
    thread_loop = stub_thread_loop lua ring;
    append_to_display = stub_append_to_display lua ring;
    disable_action = stub_disable_action lua ring;
    destroy = destroy_stub lua ring;
  }

  -- The window, whose loop gets `events`. The program's thread is that of the GUI.
  abbrev pub qt_console :
      (qt : Qt) → Cluster → List (Bool × Event qt lua ring) → AnyConsole lua ring
  qt_console qt cluster events = record {
    Window = QtConsole lua ring;
    base = λ q. q.console;
    with_base = λ c q. record q { console = c };
    with_call = λ call q. record q { calls = q.calls ++ (call ∷ []) };
    thread_loop = Window.thread_loop lua ring (exec qt lua ring cluster events);
    append_to_display = Window.append_to_display lua ring true;
    disable_action = Window.disable_action lua ring true;
    destroy = λ q. record q { console = Base.destroy lua ring q.console };
  }

-- What `main` does with the console that it has created.
module _ (lua : Api) (ring : CircularBuffer) (any : AnyConsole lua ring) where
  open any use {Window, base, with_base, with_call, destroy}

  pub data Ended : Type 0 where
    exits : ℕ → Window → Ended
    raises : Exception → Window → Ended
    fails_assertion : Window → Ended

  abbrev pub captured : Bool → Window → Window
  captured without_terminal w =
      if without_terminal
      then with_base (capture_std_err lua ring (capture_std_out lua ring (base w))) w
      else w

  abbrev pub warned : Window → Window
  warned w =
      any.append_to_display
        (codes "-- Application will not function properly - exit when finished viewing log.")
        (any.append_to_display
          (codes
            "-- ERROR: Could not load osgnav-testbed module: see View->Show debug log for potential clues.")
          w)

  abbrev pub exit_failed : Operation (Bool × Window) → Window → Option Ended
  exit_failed none w = none
  exit_failed (some (thrown e)) w = some (raises e w)
  exit_failed (some (returned (ret, t))) w = some (exits 1 (destroy t))

  abbrev pub not_loaded : Bool → Window → Option Ended
  not_loaded without_terminal w =
      if without_terminal
      then exit_failed (any.thread_loop (any.disable_action (warned w))) w
      else some (exits 1 (destroy w))

  -- Behind the loop the kernel is stopped, if it still runs, and waited for.
  abbrev pub exit_stopped : Bool → Operation (Bool × Window) → Window → Option Ended
  exit_stopped is_running none w = none
  exit_stopped is_running (some (thrown e)) w = some (raises e w)
  exit_stopped is_running (some (returned (ret, t))) w = some (
      exits (if ret then 0 else 1) (
        destroy
          (with_call wait_for_kernel_stop (if is_running then with_call stop_kernel t else t))))

  abbrev pub with_buffer : Bool → Window → Result (Bool × Console lua ring) → Option Ended
  with_buffer is_running w (thrown e) = some (raises e w)
  with_buffer is_running w (returned (ok, c)) =
      if console_is_valid lua ring c
      then exit_stopped is_running (any.thread_loop (with_call start_kernel (with_base c w)))
          (with_call start_kernel (with_base c w))
      else some (fails_assertion (with_base c w))

  abbrev pub with_module :
      Bool → Global lua ring → Bool → Result (Bool × Script lua) → Window → Option Ended
  with_module without_terminal runbuf is_running (thrown e) w = some (raises e w)
  with_module without_terminal runbuf is_running (returned (false, script)) w =
      not_loaded without_terminal (with_base (record (base w) { script = script }) w)
  with_module without_terminal runbuf is_running (returned (true, script)) w =
      let c = record (base w) { script = script } in
      with_buffer is_running (with_base c w) (get_run_buf_from_lua_global lua ring runbuf c)

  -- `script` is the one that the console was created with, `runbuf` the global runbuf once the module is
  -- loaded, `is_running` whether the kernel runs behind the loop; none where the loop does not end.
  unfoldable pub console_main :
      Bindings lua → Bool → Global lua ring → Bool → Script lua → Window → Option Ended
  unfolding capture_std_out capture_std_err get_run_buf_from_lua_global console_is_valid
  console_main luabind without_terminal runbuf is_running script w =
      with_module without_terminal runbuf is_running
        (require_module lua luabind (codes "osgnav-testbed") true script)
        (captured without_terminal w)
