-- ===== src/NavMain/Qt/Behaving.antt =====
-- The two consoles of src/QTNavMain.cpp: what the program relies on holds of both.
use vr_jugglua.Prelude.{
  ℕ, zero, suc, ◌≡◌, refl, sym, ap, ◌∙◌, Bool, true, false, List, [], ◌∷◌, ◌++◌, none, some, Bytes,
  codes,
}
use mathlib.Core.List.{append-nil}
use vr_jugglua.Lua.{Api}
use vr_jugglua.CircularBuffer.{CircularBuffer}
use vr_jugglua.ScriptHost.{returned, thrown}
use vr_jugglua.SyncBuffer.{Operation, Cluster}
use vr_jugglua.Console.Stub.{StubConsole, stub_thread_loop, stub_append_to_display, destroy_stub}
use vr_jugglua.CodeInput.{Qt}
use vr_jugglua.Kernel.{Call, stop_kernel, wait_for_kernel_stop}
use vr_jugglua.QtConsole as Window
use vr_jugglua.QtConsole.{
  Posted, text_display, disable_gui, repeat, QtConsole, Fonts, new_qt_console, slot, emit,
  append_to_display, disable_action,
}
use vr_jugglua.QtConsole.Events.{Event}
use vr_jugglua.QtConsole.Showing.Closing.{has_closing}
use vr_jugglua.QtConsole.Showing.Looping.{Looped, thread_loop-Looped}
use vr_jugglua.NavMain.AnyConsole.{Loops, Behaves}
use vr_jugglua.NavMain.Qt.{stub_console, qt_console}

-- What the slots keep, an emission keeps.
repeat-keeps :
    {A B : Type 0} (g : A → B) (f : A → A)
    → ((a : A) → g (f a) ≡ g a)
    → (n : ℕ) (a : A) → g (repeat n f a) ≡ g a
repeat-keeps g f h zero a = refl
repeat-keeps g f h (suc n) a = repeat-keeps g f h n (f a) ∙ h a

module _ (lua : Api) (ring : CircularBuffer) where
  abbrev pub IdleStub : List Call → StubConsole lua ring → Type 0
  IdleStub calls s = s.calls ≡ calls

  pub stub_console-Behaves :
      Behaves lua ring
        (stub_console lua ring)
        IdleStub
        (wait_for_kernel_stop ∷ [])
        (wait_for_kernel_stop ∷ [])
  unfolding destroy_stub stub_thread_loop stub_append_to_display
  stub_console-Behaves = record {
    base-with_base = λ c w. refl;
    base-with_call = λ call w. refl;
    with_base-Idle = λ c calls w idle. idle;
    with_call-Idle = λ call calls w idle. ap (λ l. l ++ (call ∷ [])) idle;
    append_to_display-Idle = λ message calls w idle. idle;
    disable_action-Idle = λ calls w idle. idle;
    destroy-Idle = λ calls w idle. ap (λ l. l ++ (wait_for_kernel_stop ∷ [])) idle;
    thread_loop-Loops = λ calls w idle. (refl, ap (λ l. l ++ (wait_for_kernel_stop ∷ [])) idle);
  }

  abbrev pub IdleWindow : List Call → QtConsole lua ring → Type 0
  IdleWindow calls q = (q.running ≡ false) × (q.calls ≡ calls)

  slot-keeps :
      (posted : Posted) (q : QtConsole lua ring)
      → ((slot lua ring posted q).running ≡ q.running) × ((slot lua ring posted q).calls ≡ q.calls)
  unfolding Window.add_text_to_display Window.disable_gui_action
  slot-keeps (text_display message) q = (refl, refl)
  slot-keeps disable_gui q = (refl, refl)

  emit-IdleWindow :
      (own_thread : Bool) (posted : Posted) (calls : List Call) (q : QtConsole lua ring)
      → IdleWindow calls q
      → IdleWindow calls (emit lua ring own_thread posted q)
  unfolding emit
  emit-IdleWindow true posted calls q (idle, same) = (
    repeat-keeps (λ (t : QtConsole lua ring). t.running) (slot lua ring posted)
          (λ t. (slot-keeps posted t).0) q.connections q
        ∙ idle,
    repeat-keeps (λ (t : QtConsole lua ring). t.calls) (slot lua ring posted)
          (λ t. (slot-keeps posted t).1) q.connections q
        ∙ same,
  )
  emit-IdleWindow false posted calls q idle = idle

  append_to_display-IdleWindow :
      (message : Bytes) (calls : List Call) (q : QtConsole lua ring)
      → IdleWindow calls q
      → IdleWindow calls (append_to_display lua ring true message q)
  unfolding append_to_display
  append_to_display-IdleWindow message calls q idle =
      emit-IdleWindow true (text_display message) calls
        (record q { console = record q.console { display = q.console.display ++ (message ∷ []) } })
        idle

  disable_action-IdleWindow :
      (calls : List Call) (q : QtConsole lua ring)
      → IdleWindow calls q
      → IdleWindow calls (disable_action lua ring true q)
  unfolding disable_action
  disable_action-IdleWindow calls q idle =
      let text = codes "-- Disabling interaction console GUI on this node..." in
      emit-IdleWindow true disable_gui calls (append_to_display lua ring true text q)
        (append_to_display-IdleWindow text calls q idle)

  Looped-Loops :
      (qt : Qt) (cluster : Cluster) (events : List (Bool × Event qt lua ring)) (calls : List Call)
      (q : QtConsole lua ring) (result : Operation (Bool × QtConsole lua ring))
      → IdleWindow calls q
      → Looped qt lua ring cluster q result
      → Loops
          (qt_console lua ring qt cluster events)
          IdleWindow
          (stop_kernel ∷ wait_for_kernel_stop ∷ [])
          calls
          q
          result
  Looped-Loops qt cluster events calls q none idle looped = looped
  Looped-Loops qt cluster events calls q (some (thrown e)) idle looped = looped
  Looped-Loops qt cluster events calls q (some (returned (ok, t))) (idle, same)
        (succeeded, stopped, made, n, new, d, s) =
      (succeeded, (stopped, made ∙ ap (λ l. l ++ (stop_kernel ∷ wait_for_kernel_stop ∷ [])) same))

  pub qt_console-Behaves :
      (qt : Qt) (cluster : Cluster) (events : List (Bool × Event qt lua ring))
      → has_closing qt lua ring cluster events ≡ true
      → Behaves lua ring
          (qt_console lua ring qt cluster events)
          IdleWindow
          (stop_kernel ∷ wait_for_kernel_stop ∷ [])
          []
  qt_console-Behaves qt cluster events closing = record {
    base-with_base = λ c w. refl;
    base-with_call = λ call w. refl;
    with_base-Idle = λ c calls w idle. idle;
    with_call-Idle = λ call calls w idle. (idle.0, ap (λ l. l ++ (call ∷ [])) idle.1);
    append_to_display-Idle = append_to_display-IdleWindow;
    disable_action-Idle = disable_action-IdleWindow;
    destroy-Idle = λ calls w idle. (idle.0, idle.1 ∙ sym (append-nil calls));
    thread_loop-Loops = λ calls w idle.
        Looped-Loops qt cluster events calls w _ idle
          (thread_loop-Looped qt lua ring cluster events w closing idle.0).0;
  }
