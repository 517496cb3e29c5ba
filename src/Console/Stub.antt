-- ===== src/Console/Stub.antt =====
-- `StubConsole` of vrjugglua/LuaConsole.cpp: the console without a window, which waits for the kernel.
use vr_jugglua.Prelude.{Bool, true, false, List, [], ◌∷◌, ◌++◌, some, Bytes}
use vr_jugglua.Lua.{Api}
use vr_jugglua.CircularBuffer.{CircularBuffer}
use vr_jugglua.ScriptHost.{Script, returned}
use vr_jugglua.SyncBuffer.{Operation}
use vr_jugglua.Console as Base
use vr_jugglua.Console.{Console, new_console, console_is_ready}
use vr_jugglua.Kernel.{Call, wait_for_kernel_stop}

module _ (lua : Api) (ring : CircularBuffer) where
  -- The console it extends, and the calls of the kernel. What is appended is only logged.
  pub record StubConsole : Type 0 where
    pub console : Console lua ring
    pub calls : List Call

  unfoldable pub new_stub_console : Script lua → StubConsole
  unfolding new_console
  new_stub_console script = record { console = new_console lua ring script false; calls = [] }

  abbrev pub stub_call : Call → StubConsole → StubConsole
  stub_call call s = record s { calls = s.calls ++ (call ∷ []) }

  -- The destructor of `LuaConsole` follows.
  unfoldable pub destroy_stub : StubConsole → StubConsole
  destroy_stub s =
      let waited = stub_call wait_for_kernel_stop s in
      record waited { console = Base.destroy lua ring waited.console }

  unfoldable pub stub_thread_loop : StubConsole → Operation (Bool × StubConsole)
  unfolding console_is_ready
  stub_thread_loop s =
      let ready = record s { console = console_is_ready lua ring s.console } in
      some (returned (true, stub_call wait_for_kernel_stop ready))

  unfoldable pub stub_append_to_display : Bytes → StubConsole → StubConsole
  stub_append_to_display message s = record s {
    console = Base.append_to_display lua ring message s.console;
  }

  abbrev pub stub_disable_action : StubConsole → StubConsole
  stub_disable_action s = s
