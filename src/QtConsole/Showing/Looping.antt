-- ===== src/QtConsole/Showing/Looping.antt =====
-- The loop of the window of vrjugglua/qt-console/QTConsole.cpp, and what was appended before it began.
use vr_jugglua.Prelude.{
  ℕ, suc, ◌+◌, ◌≡◌, refl, sym, ap, ◌∙◌, subst, Bool, true, false, ◌||◌, List, [], ◌∷◌, ◌++◌, some,
  none, Bytes, codes, take,
}
use mathlib.Core.List.{append_assoc, append-nil}
use vr_jugglua.Lua.{Api}
use vr_jugglua.CircularBuffer.{CircularBuffer}
use vr_jugglua.ScriptHost.{returned, thrown}
use vr_jugglua.SyncBuffer.{Operation, then_do, Cluster}
use vr_jugglua.CodeInput.{Qt}
use vr_jugglua.Kernel.{stop_kernel, wait_for_kernel_stop}
use vr_jugglua.QtConsole.{
  Posted, text_display, disable_gui, repeat, replicate, QtConsole, slot, emit, append_to_display,
  disable_action, begin_loop, end_loop, thread_loop,
}
use vr_jugglua.QtConsole.Events.{Event, exec}
use vr_jugglua.QtConsole.Showing.{count, spread, shown, has_buffer}
use vr_jugglua.QtConsole.Showing.Closing.{has_closing, Ran, exec-Ran}
use vr_jugglua.QtConsole.Showing.Queueing.{queue_behind}
use vr_jugglua.QtConsole.Showing.Waiting.{exec-LeftWaiting}

module _ (qt : Qt) (lua : Api) (ring : CircularBuffer) (cluster : Cluster) where
  -- What a run of the loop leaves, where it does not throw.
  abbrev pub Looped : QtConsole lua ring → Operation (Bool × QtConsole lua ring) → Type 0
  Looped q none = ⊥
  Looped q (some (thrown e)) = has_buffer lua ring q ≡ false
  Looped q (some (returned (ok, t))) =
      (ok ≡ true)
      × (t.running ≡ false)
      × (t.calls ≡ q.calls ++ (stop_kernel ∷ wait_for_kernel_stop ∷ []))
      × (t.connections ≡ suc q.connections)
      × (new : List Bytes) × (t.console.display ≡ q.console.display ++ new)
      × ((a : Bytes)
          → count a (shown lua ring t)
            ≡ count a (shown lua ring q) + count a (spread (suc q.connections) new))

  end-Looped :
      (q : QtConsole lua ring) (result : Operation (QtConsole lua ring))
      → Ran qt lua ring cluster (begin_loop lua ring q) result
      → Looped q
          (then_do result (λ (t : QtConsole lua ring). some (returned (true, end_loop lua ring t))))
  end-Looped q none h = h
  end-Looped q (some (thrown e)) h = h
  end-Looped q (some (returned t)) (new, d, s, n, c, b) =
      (refl, refl, ap (λ l. l ++ (stop_kernel ∷ wait_for_kernel_stop ∷ [])) c, n, new, d, s)

  -- Behind a run of the loop the signals wait that the events which led to its end left in the queue.
  abbrev pub Waits :
      List (Bool × Event qt lua ring)
      → QtConsole lua ring
      → Operation (Bool × QtConsole lua ring)
      → Type 0
  Waits events q none = Unit
  Waits events q (some (thrown e)) = Unit
  Waits events q (some (returned (ok, t))) =
      (k : ℕ) × (thread_loop lua ring (exec qt lua ring cluster (take k events)) q
        ≡ some (returned (ok, t)))
      × (t.queue ≡ queue_behind qt lua ring (suc q.connections) (take k events) q.queue)

  begun :
      (events : List (Bool × Event qt lua ring)) (q : QtConsole lua ring)
      → q.running ≡ false
      → thread_loop lua ring (exec qt lua ring cluster events) q
        ≡ then_do
            (exec qt lua ring cluster events (begin_loop lua ring q))
            (λ (t : QtConsole lua ring). some (returned (true, end_loop lua ring t)))
  unfolding thread_loop
  begun events q idle = simp (thread_loop, idle) refl

  loop-Waits :
      (events : List (Bool × Event qt lua ring)) (q : QtConsole lua ring)
      → q.running ≡ false
      → (result : Operation (QtConsole lua ring))
      → exec qt lua ring cluster events (begin_loop lua ring q) ≡ result
      → Waits events q
          (then_do result (λ (t : QtConsole lua ring). some (returned (true, end_loop lua ring t))))
  loop-Waits events q idle none e = tt
  loop-Waits events q idle (some (thrown error)) e = tt
  loop-Waits events q idle (some (returned t)) e =
      let (k, ran, left) =
        exec-LeftWaiting qt lua ring cluster events (begin_loop lua ring q) t e in
      (
        k,
        begun (take k events) q idle
            ∙ ap
                (λ (r : Operation (QtConsole lua ring)).
                  then_do r
                    (λ (u : QtConsole lua ring). some (returned (true, end_loop lua ring u))))
                ran,
        left,
      )

  -- Where its events close the window or find the kernel stopped, a run of the loop that is not run
  -- already ends. It returns true, is marked as not running and has stopped the kernel and waited for
  -- it. Each text that was appended to the display meanwhile, by whatever handler or thread, was shown, or
  -- waits in the queue, as often as the loop has been begun: once the first time. Which signals wait is
  -- what the events up to the end left: each that another thread emitted goes to the back of the queue,
  -- and each delivery takes one from its front, so with enough deliveries none waits. The loop throws
  -- only where the console has no run buffer. While it runs, another call returns false and changes
  -- nothing.
  pub thread_loop-Looped :
      (events : List (Bool × Event qt lua ring)) (q : QtConsole lua ring)
      → has_closing qt lua ring cluster events ≡ true
      → q.running ≡ false
      → Looped q (thread_loop lua ring (exec qt lua ring cluster events) q)
        × (thread_loop lua ring (exec qt lua ring cluster events) (begin_loop lua ring q)
            ≡ some (returned (false, begin_loop lua ring q)))
        × Waits events q (thread_loop lua ring (exec qt lua ring cluster events) q)
  unfolding thread_loop
  thread_loop-Looped events q h idle = (
    simp (thread_loop, idle)
        (end-Looped q (exec qt lua ring cluster events (begin_loop lua ring q)) (
          exec-Ran qt lua ring cluster events (begin_loop lua ring q)
            (ap (λ b. b || false) h ∙ refl))),
    refl,
    subst (Waits events q) (sym (begun events q idle))
        (loop-Waits events q idle (exec qt lua ring cluster events (begin_loop lua ring q)) refl),
  )

  -- The texts are appended one by one.
  abbrev pub append_all : Bool → List Bytes → QtConsole lua ring → QtConsole lua ring
  append_all own_thread [] q = q
  append_all own_thread (m ∷ ms) q =
      append_all own_thread ms (append_to_display lua ring own_thread m q)

  emit_unconnected :
      (own_thread : Bool) (posted : Posted) (q : QtConsole lua ring)
      → q.connections ≡ 0
      → emit lua ring own_thread posted q ≡ q
  unfolding emit
  emit_unconnected true posted q h = ap (λ (n : ℕ). repeat n (slot lua ring posted) q) h
  emit_unconnected false posted q h =
      ap (λ (n : ℕ). record q { queue = q.queue ++ replicate n posted }) h
      ∙ ap (λ (l : List Posted). record q { queue = l }) (append-nil q.queue)

  -- Only the field that keeps what was appended changes.
  abbrev pub with_display : List Bytes → QtConsole lua ring → QtConsole lua ring
  with_display texts q = record q { console = record q.console { display = texts } }

  append_all_unconnected :
      (own_thread : Bool) (ms : List Bytes) (q : QtConsole lua ring)
      → q.connections ≡ 0
      → append_all own_thread ms q ≡ with_display (q.console.display ++ ms) q
  unfolding append_to_display
  append_all_unconnected own_thread [] q h =
      ap (λ (l : List Bytes). with_display l q) (sym (append-nil q.console.display))
  append_all_unconnected own_thread (m ∷ ms) q h =
      ap (append_all own_thread ms) (
        emit_unconnected own_thread (text_display m)
          (with_display (q.console.display ++ (m ∷ [])) q) h)
      ∙ append_all_unconnected own_thread ms (with_display (q.console.display ++ (m ∷ [])) q) h
      ∙ ap (λ (l : List Bytes). with_display l q) (append_assoc q.console.display (m ∷ []) ms)

  abbrev pub disabling_text : Bytes
  disabling_text = codes "-- Disabling interaction console GUI on this node..."

  disable_action_unconnected :
      (own_thread : Bool) (q : QtConsole lua ring)
      → q.connections ≡ 0
      → disable_action lua ring own_thread q
        ≡ with_display (q.console.display ++ (disabling_text ∷ [])) q
  unfolding disable_action append_to_display
  disable_action_unconnected own_thread q h =
      let r = with_display (q.console.display ++ (disabling_text ∷ [])) q in
      ap (emit lua ring own_thread disable_gui)
        (emit_unconnected own_thread (text_display disabling_text) r h)
      ∙ emit_unconnected own_thread disable_gui r h

  -- The texts that were appended early are among those that were passed to the display, but only those
  -- of the loop were shown or wait.
  abbrev pub Lost : List Bytes → QtConsole lua ring → Operation (Bool × QtConsole lua ring) → Type 0
  Lost early q none = ⊥
  Lost early q (some (thrown e)) = has_buffer lua ring q ≡ false
  Lost early q (some (returned (ok, t))) =
      (new : List Bytes) × (t.console.display ≡ (q.console.display ++ early) ++ new)
      × ((a : Bytes)
          → count a (shown lua ring t) ≡ count a (shown lua ring q) + count a (spread 1 new))

  Looped-Lost :
      (early : List Bytes) (q r : QtConsole lua ring)
      (result : Operation (Bool × QtConsole lua ring))
      → q.connections ≡ 0
      → r ≡ with_display (q.console.display ++ early) q
      → Looped r result
      → Lost early q result
  Looped-Lost early q r none n e h = h
  Looped-Lost early q r (some (thrown x)) n e h = sym (ap (has_buffer lua ring) e) ∙ h
  Looped-Lost early q r (some (returned (ok, t))) n e (_, _, _, _, new, d, s) = (
    new,
    d ∙ ap (λ (w : QtConsole lua ring). w.console.display ++ new) e,
    λ a.
        s a
        ∙ ap
            (λ (w : QtConsole lua ring).
              count a (shown lua ring w) + count a (spread (suc w.connections) new))
            e
        ∙ ap (λ (k : ℕ). count a (shown lua ring q) + count a (spread (suc k) new)) n,
  )

  -- What is done to a console before its loop is begun for the first time has no effect but that it is
  -- kept what was appended: the input stays enabled behind `disableAction`, and the texts are never
  -- shown, during the loop and behind it either.
  pub early_lost_lem :
      (own_thread : Bool) (ms : List Bytes) (events : List (Bool × Event qt lua ring))
      (q : QtConsole lua ring)
      → q.connections ≡ 0
      → has_closing qt lua ring cluster events ≡ true
      → q.running ≡ false
      → let r = disable_action lua ring own_thread (append_all own_thread ms q) in
        (r ≡ with_display (q.console.display ++ (ms ++ (disabling_text ∷ []))) q)
        × Lost
            (ms ++ (disabling_text ∷ []))
            q
            (thread_loop lua ring (exec qt lua ring cluster events) r)
  early_lost_lem own_thread ms events q n h idle =
      let appended = with_display (q.console.display ++ ms) q in
      let same =
        ap (disable_action lua ring own_thread) (append_all_unconnected own_thread ms q n)
        ∙ disable_action_unconnected own_thread appended n
        ∙ ap (λ (l : List Bytes). with_display l q)
            (append_assoc q.console.display ms (disabling_text ∷ [])) in
      let r = disable_action lua ring own_thread (append_all own_thread ms q) in
      (
        same,
        Looped-Lost (ms ++ (disabling_text ∷ [])) q r
            (thread_loop lua ring (exec qt lua ring cluster events) r) n same
            (thread_loop-Looped events r h
              (ap (λ (w : QtConsole lua ring). w.running) same ∙ idle)).0,
      )
