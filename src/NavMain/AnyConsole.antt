-- ===== src/NavMain/AnyConsole.antt =====
-- `LuaConsole` of vrjugglua/LuaConsole.h as src/QTNavMain.cpp uses it: the console behind a pointer, with
-- its virtual methods, and what the program relies on.
use vr_jugglua.Prelude.{◌≡◌, Bool, true, false, List, [], ◌∷◌, ◌++◌, none, some, Bytes, is_some}
use vr_jugglua.Lua.{Api}
use vr_jugglua.CircularBuffer.{CircularBuffer}
use vr_jugglua.ScriptHost.{returned, thrown}
use vr_jugglua.SyncBuffer.{Operation}
use vr_jugglua.Console.{Console}
use vr_jugglua.Kernel.{Call}

-- The console that it extends, the kernel's calls, and its `threadLoop`, `appendToDisplay`,
-- `disableAction` and destructor; the program does not call `stopThread`, and titles are left out.
pub record AnyConsole (lua : Api) (ring : CircularBuffer) : Type 1 where
  pub Window : Type 0
  pub base : Window → Console lua ring
  pub with_base : Console lua ring → Window → Window
  pub with_call : Call → Window → Window
  pub thread_loop : Window → Operation (Bool × Window)
  pub append_to_display : Bytes → Window → Window
  pub disable_action : Window → Window
  pub destroy : Window → Window

-- How a loop ends: it returns true and has made `loop_calls`, or it throws as there is no run buffer.
abbrev pub Loops :
    {lua : Api} {ring : CircularBuffer} (any : AnyConsole lua ring)
    → (List Call → any.Window → Type 0)
    → List Call
    → List Call
    → any.Window
    → Operation (Bool × any.Window)
    → Type 0
Loops any Idle loop_calls calls w none = ⊥
Loops any Idle loop_calls calls w (some (thrown e)) = is_some (any.base w).runbuf ≡ false
Loops any Idle loop_calls calls w (some (returned (ok, t))) =
    (ok ≡ true) × Idle (calls ++ loop_calls) t

-- `Idle calls w`: its loop is not run, and `calls` are the calls of the kernel so far.
pub record Behaves (lua : Api) (ring : CircularBuffer) (any : AnyConsole lua ring)
    (Idle : List Call → any.Window → Type 0) (loop_calls destroy_calls : List Call) : Type 0 where
  pub base-with_base : (c : Console lua ring) (w : any.Window) → any.base (any.with_base c w) ≡ c
  pub base-with_call : (call : Call) (w : any.Window) → any.base (any.with_call call w) ≡ any.base w
  pub with_base-Idle :
      (c : Console lua ring) (calls : List Call) (w : any.Window)
      → Idle calls w
      → Idle calls (any.with_base c w)
  pub with_call-Idle :
      (call : Call) (calls : List Call) (w : any.Window)
      → Idle calls w
      → Idle (calls ++ (call ∷ [])) (any.with_call call w)
  pub append_to_display-Idle :
      (message : Bytes) (calls : List Call) (w : any.Window)
      → Idle calls w
      → Idle calls (any.append_to_display message w)
  pub disable_action-Idle :
      (calls : List Call) (w : any.Window) → Idle calls w → Idle calls (any.disable_action w)
  pub destroy-Idle :
      (calls : List Call) (w : any.Window)
      → Idle calls w
      → Idle (calls ++ destroy_calls) (any.destroy w)
  pub thread_loop-Loops :
      (calls : List Call) (w : any.Window)
      → Idle calls w
      → Loops any Idle loop_calls calls w (any.thread_loop w)
