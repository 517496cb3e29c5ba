-- ===== src/QtConsole/Showing/Closing.antt =====
-- What ends the loop of the window of vrjugglua/qt-console/QTConsole.cpp.
use vr_jugglua.Prelude.{
  ◌≡◌, refl, sym, ap, ◌∙◌, inl, inr, Bool, true, false, not, ◌||◌, List, [], ◌∷◌, some, none,
  if◌then◌else◌, Bool-cases,
}
use vr_jugglua.Lua.{Api}
use vr_jugglua.CircularBuffer.{CircularBuffer}
use vr_jugglua.ScriptHost.{returned, thrown}
use vr_jugglua.SyncBuffer.{Operation, then_do, Cluster}
use vr_jugglua.CodeInput.{Qt}
use vr_jugglua.QtConsole.{QtConsole, check_running_state}
use vr_jugglua.QtConsole.Events.{
  Event, run_clicked, file_exit_triggered, window_closed, polling_timeout, handle, exec,
}
use vr_jugglua.QtConsole.Showing.{has_buffer, Grows, Quiet→Grows, Grows-trans}
use vr_jugglua.QtConsole.Showing.Handling.{Handled, handle-Handled}

module _ (qt : Qt) (lua : Api) (ring : CircularBuffer) (cluster : Cluster) where
  -- The user closes the window or leaves the program, or the kernel is found not to run.
  abbrev closes : Event qt lua ring → Bool
  closes window_closed = true
  closes file_exit_triggered = true
  closes (polling_timeout kernel_running) = not kernel_running
  closes event = false

  abbrev pub has_closing : List (Bool × Event qt lua ring) → Bool
  has_closing [] = false
  has_closing ((acquired, event) ∷ events) = closes event || has_closing events

  abbrev closed_behind : Operation (QtConsole lua ring) → Bool
  closed_behind none = false
  closed_behind (some (thrown e)) = false
  closed_behind (some (returned t)) = t.closed

  closes-closed :
      (acquired : Bool) (event : Event qt lua ring) (q : QtConsole lua ring)
      → closes event ≡ true
      → closed_behind (handle qt lua ring cluster acquired event q) ≡ true
  unfolding handle check_running_state
  closes-closed acquired window_closed q h = refl
  closes-closed acquired file_exit_triggered q h = refl
  closes-closed acquired (polling_timeout false) q h = elim (Bool-cases q.running) [
    | inl on ↦ simp on refl
    | inr off ↦ simp off refl
  ]
  closes-closed acquired (polling_timeout true) q h = cc
  closes-closed acquired run_clicked q h = cc
  closes-closed acquired _ q h = cc

  -- A run of the events ends with the window closed, and what is shown has grown by what was appended.
  abbrev pub Ran : QtConsole lua ring → Operation (QtConsole lua ring) → Type 0
  Ran q none = ⊥
  Ran q (some (thrown e)) = has_buffer lua ring q ≡ false
  Ran q (some (returned t)) = Grows lua ring q t

  then_do-Ran :
      (q : QtConsole lua ring) (result : Operation (QtConsole lua ring))
      (next : QtConsole lua ring → Operation (QtConsole lua ring))
      → Handled lua ring q result
      → ((t : QtConsole lua ring) → result ≡ some (returned t) → Ran t (next t))
      → Ran q (then_do result next)
  then_do-Ran q none next h k = h
  then_do-Ran q (some (thrown e)) next h k = h
  then_do-Ran q (some (returned t)) next h k = join (next t) (k t refl)
    where
      join : (o : Operation (QtConsole lua ring)) → Ran t o → Ran q o
      join none ran = ran
      join (some (thrown e)) ran = sym h.5 ∙ ran
      join (some (returned u)) ran = Grows-trans lua ring q t u h ran

  if-Ran :
      (b : Bool) (q : QtConsole lua ring) (yes_result no_result : Operation (QtConsole lua ring))
      → (b ≡ true → Ran q yes_result)
      → (b ≡ false → Ran q no_result)
      → Ran q (if b then yes_result else no_result)
  if-Ran true q yes_result no_result h k = h refl
  if-Ran false q yes_result no_result h k = k refl

  pub exec-Ran :
      (events : List (Bool × Event qt lua ring)) (q : QtConsole lua ring)
      → (has_closing events || q.closed) ≡ true
      → Ran q (exec qt lua ring cluster events q)
  unfolding exec
  exec-Ran [] q h =
      if-Ran q.closed q (some (returned q)) none
        (λ c. Quiet→Grows lua ring q q (refl, refl, refl, refl, refl))
        (λ c. absurd (cc (sym h ∙ c)))
  exec-Ran ((acquired, event) ∷ events) q h =
      let result = handle qt lua ring cluster acquired event q in
      if-Ran q.closed q (some (returned q)) (then_do result (exec qt lua ring cluster events))
        (λ c. Quiet→Grows lua ring q q (refl, refl, refl, refl, refl))
        (λ open_window.
          then_do-Ran q result (exec qt lua ring cluster events)
            (handle-Handled qt lua ring cluster acquired event q)
            (λ t e. exec-Ran events t (
              still (closes event) (has_closing events) q.closed t.closed open_window h
                (λ c. sym (ap closed_behind e) ∙ closes-closed acquired event q c))))
    where
      still :
          (c more was now : Bool)
          → was ≡ false
          → ((c || more) || was) ≡ true
          → (c ≡ true → now ≡ true)
          → (more || now) ≡ true
      still true true was now w h k = refl
      still true false was now w h k = k refl
      still false true was now w h k = refl
      still false false was now w h k = cc
