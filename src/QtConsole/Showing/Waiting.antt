-- ===== src/QtConsole/Showing/Waiting.antt =====
-- Which signals wait for the thread of the GUI in the window of vrjugglua/qt-console/QTConsole.cpp.
use vr_jugglua.Prelude.{
  ℕ, suc, ◌≡◌, refl, sym, ap, ap₂, ◌∙◌, ◌⊎◌, inl, inr, Bool, true, false, List, [], ◌∷◌, none, some,
  take, if◌then◌else◌,
}
use vr_jugglua.Lua.{Api}
use vr_jugglua.CircularBuffer.{CircularBuffer}
use vr_jugglua.ScriptHost.{returned, thrown}
use vr_jugglua.SyncBuffer.{Operation, then_do, Cluster}
use vr_jugglua.CodeInput.{Qt}
use vr_jugglua.QtConsole.{Posted, QtConsole}
use vr_jugglua.QtConsole.Events.{Event, handle, exec}
use vr_jugglua.QtConsole.Showing.Handling.{Handled, handle-Handled}
use vr_jugglua.QtConsole.Showing.Queueing.{queue_after, queue_behind, HasQueue, handle-HasQueue}

module _ (qt : Qt) (lua : Api) (ring : CircularBuffer) (cluster : Cluster) where
  chosen :
      (b : Bool) (q t : QtConsole lua ring) (o : Operation (QtConsole lua ring))
      → (if b then some (returned q) else o) ≡ some (returned t)
      → ((b ≡ true) × (q ≡ t)) ⊎ ((b ≡ false) × (o ≡ some (returned t)))
  chosen true q t o e = inl (
    refl,
    ap
        (λ (r : Operation (QtConsole lua ring)). elim r [
          | none ↦ q
          | some x ↦ elim x [ thrown error ↦ q | returned w ↦ w ]
        ])
        e,
  )
  chosen false q t o e = inr (refl, e)

  -- A run of the loop's events: the first `k` of them alone lead to the same end, and what waits then is
  -- what they left in the queue.
  abbrev pub LeftWaiting :
      List (Bool × Event qt lua ring) → QtConsole lua ring → QtConsole lua ring → Type 0
  LeftWaiting events q t =
      (k : ℕ) × (exec qt lua ring cluster (take k events) q ≡ some (returned t))
      × (t.queue ≡ queue_behind qt lua ring q.connections (take k events) q.queue)

  closed_at_once :
      (events : List (Bool × Event qt lua ring)) (q t : QtConsole lua ring)
      → q.closed ≡ true
      → q ≡ t
      → LeftWaiting events q t
  unfolding exec
  closed_at_once events q t closed same =
      (0, simp closed (ap (λ w. some (returned w)) same), sym (ap (λ w. w.queue) same))

  pub exec-LeftWaiting :
      (events : List (Bool × Event qt lua ring)) (q t : QtConsole lua ring)
      → exec qt lua ring cluster events q ≡ some (returned t)
      → LeftWaiting events q t
  unfolding exec
  exec-LeftWaiting [] q t e = elim (chosen q.closed q t none e) [
    | inl (closed, same) ↦ closed_at_once [] q t closed same
    | inr (open_window, waits) ↦ cc
  ]
  exec-LeftWaiting ((acquired, event) ∷ events) q t e =
      elim (chosen q.closed q t
        (then_do (handle qt lua ring cluster acquired event q) (exec qt lua ring cluster events))
        e) [
          | inl (closed, same) ↦ closed_at_once ((acquired, event) ∷ events) q t closed same
          | inr (open_window, went) ↦
              go (handle qt lua ring cluster acquired event q) refl
                (handle-HasQueue qt lua ring cluster acquired event q)
                (handle-Handled qt lua ring cluster acquired event q) went open_window
                (λ u. exec-LeftWaiting events u t)
        ]
    where
      go :
          (r : Operation (QtConsole lua ring))
          → handle qt lua ring cluster acquired event q ≡ r
          → HasQueue qt lua ring (queue_after qt lua ring q.connections event q.queue) r
          → Handled lua ring q r
          → then_do r (exec qt lua ring cluster events) ≡ some (returned t)
          → q.closed ≡ false
          → ((u : QtConsole lua ring)
              → exec qt lua ring cluster events u ≡ some (returned t)
              → LeftWaiting events u t)
          → LeftWaiting ((acquired, event) ∷ events) q t
      go none eq laid handled went open_window rest = cc
      go (some (thrown error)) eq laid handled went open_window rest = cc
      go (some (returned u)) eq laid (new, d, s, n, c, b) went open_window rest =
          let (k, ran, behind) = rest u went in
          (
            suc k,
            ap
                  (λ (b : Bool).
                    if b
                    then some (returned q)
                    else then_do (handle qt lua ring cluster acquired event q)
                        (exec qt lua ring cluster (take k events)))
                  open_window
                ∙ ap (λ r. then_do r (exec qt lua ring cluster (take k events))) eq
                ∙ ran,
            behind
                ∙ ap₂ (λ (m : ℕ) (l : List Posted). queue_behind qt lua ring m (take k events) l) n
                    laid,
          )
