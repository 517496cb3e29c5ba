-- ===== src/OsgApp/Times.antt =====
-- The time differences that the application of vrjugglua/OsgAppProxy.cpp gives its delegate.
use vr_jugglua.Prelude.{
  ℕ, suc, ◌-◌, ◌≡◌, refl, ap, ap₂, sym, ◌∙◌, Bool, true, false, List, [], ◌∷◌, map, take, Option,
  none, some, Bool-cases, inl, inr, arith,
}
use vr_jugglua.OsgApp.{Host, App, Ended, running, exited, pre_frame, current_time, time_since}
use vr_jugglua.OsgApp.Frames.{Frame, run_frame, run_frame_lem, status, chances, frame_calls}

-- The head's time where there is a user, and otherwise the one before.
abbrev pub next_time : Option ℕ → ℕ → ℕ
next_time none last = last
next_time (some time) last = time

-- From each time to the next, of those that follow `last`; 0 for one that does not go on.
abbrev pub differences : ℕ → List (Option ℕ) → List ℕ
differences last [] = []
differences last (h ∷ hs) = (next_time h last - last) ∷ differences (next_time h last) hs

module _ (host : Host) where
  abbrev pub delta_then : Ended host → (App host → List host.Double) → List host.Double
  delta_then (running b q) next = q.time_delta ∷ next q
  delta_then (exited status q) next = []

  -- What the delegate is given in the frames that are run, in order.
  abbrev pub deltas : List (Frame host) → App host → List host.Double
  deltas [] app = []
  deltas (f ∷ fs) app = delta_then (run_frame host f app) (deltas fs)

  -- How many frames are run: those up to the first behind one that gave the application no chance.
  abbrev pub frames_run : List (Frame host) → Bool × Option host.Value → ℕ
  frames_run [] given = 0
  frames_run (f ∷ fs) (false, d) = 0
  frames_run (f ∷ fs) (true, d) =
      suc (frames_run fs (chances host f.lua (frame_calls host) (false, d)))

  current_time_lem :
      (head_time : Option ℕ) (app : App host)
      → current_time host head_time app ≡ next_time head_time app.last_pre_frame_time
  current_time_lem none app = refl
  current_time_lem (some time) app = refl

  time_since_lem : (last cur : ℕ) → time_since host last cur ≡ cur - last
  time_since_lem last cur = ground arith

  exits :
      (f : Frame host) (app : App host)
      → app.success_flag ≡ false
      → (q : App host) × (run_frame host f app ≡ exited 1 q)
  exits f app off = unfold pre_frame in simp off (_, refl)

  abbrev expected : List (Frame host) → ℕ → Bool × Option host.Value → List host.Double
  expected fs last given =
      map host.secd
        (take (frames_run fs given) (differences last (map (λ (f : Frame host). f.head_time) fs)))

  -- In each frame that is run the delegate is given the time from the frame before to this one, in units of
  -- the clock turned into seconds: the head's time less the one before, 0 where it does not go on or there is
  -- no user. The first is counted from the time that the application has.
  pub deltas_lem :
      (fs : List (Frame host)) (app : App host)
      → deltas fs app
        ≡ map host.secd (
            take
              (frames_run fs (status host app))
              (differences app.last_pre_frame_time (map (λ (f : Frame host). f.head_time) fs)))
  deltas_lem [] app = refl
  deltas_lem (f ∷ fs) app = elim (Bool-cases app.success_flag) [
    | inr off ↦
        ap (λ (r : Ended host). delta_then r (deltas fs)) (exits f app off).1
        ∙ ap (λ (b : Bool). expected (f ∷ fs) app.last_pre_frame_time (b, app.delegate)) (sym off)
    | inl on ↦
        let (b, q, ran, gave, time, delta) = run_frame_lem host f app on in
        let last = app.last_pre_frame_time in
        let at = current_time_lem f.head_time app in
        ap (λ (r : Ended host). delta_then r (deltas fs)) ran
        ∙ ap₂ (λ (x : host.Double) (xs : List host.Double). x ∷ xs)
            (delta
              ∙ ap host.secd (
                  time_since_lem last (current_time host f.head_time app)
                  ∙ ap (λ (t : ℕ). t - last) at))
            (deltas_lem fs q ∙ ap₂ (expected fs) (time ∙ at) gave)
        ∙ ap (λ (b : Bool). expected (f ∷ fs) last (b, app.delegate)) (sym on)
  ]
