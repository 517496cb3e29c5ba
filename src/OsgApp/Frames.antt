-- ===== src/OsgApp/Frames.antt =====
-- When the application of vrjugglua/OsgAppProxy.cpp gives up.
use vr_jugglua.Prelude.{
  ℕ, ◌≡◌, refl, ap, ap₂, ◌∙◌, Bool, true, false, ◌||◌, List, [], ◌∷◌, Option, none, some, Bytes,
  codes, if◌then◌else◌, Bool-cases, inl, inr, arith,
}
use vr_jugglua.OsgApp.{
  Host, Reply, absent, succeeded, failed, App, Ended, running, exited, and_then, set_app_delegate,
  set_all, forward_to, forward_call_to_delegate, pre_frame, late_pre_frame, intra_frame, post_frame,
  current_time, time_since,
}

module _ (host : Host) where
  open host use {Value, is_table}

  -- What the Lua code does in a frame, and the head time of the frame.
  pub record Frame : Type 0 where
    pub lua : Value → Bytes → Reply host
    pub head_time : Option ℕ

  -- The steps of a frame in the order in which the kernel makes them, and a run of frames.
  abbrev pub run_frame : Frame → App host → Ended host
  run_frame f app = and_then host (pre_frame host f.lua f.head_time app) (λ p.
      and_then host (late_pre_frame host f.lua p)
        (λ q. and_then host (intra_frame host f.lua q) (post_frame host f.lua)))

  abbrev pub run_frames : List Frame → App host → Ended host
  run_frames [] app = running true app
  run_frames (f ∷ fs) app = and_then host (run_frame f app) (run_frames fs)

  -- The tables among the delegates that a call sets: whether there are any, and the last.
  abbrev pub any_table : List Value → Bool
  any_table [] = false
  any_table (v ∷ vs) = is_table v || any_table vs

  abbrev pub last_table : List Value → Option Value → Option Value
  last_table [] d = d
  last_table (v ∷ vs) d = last_table vs (if is_table v then some v else d)

  -- A call to a delegate, with what it leaves: whether it gave the application a chance, which a success
  -- does, and a new delegate too; and the delegate behind it.
  abbrev pub chance_of : Reply host → Option Value → Bool × Option Value
  chance_of absent d = (false, d)
  chance_of (succeeded set) d = (true, last_table set d)
  chance_of (failed set error) d = (any_table set, last_table set d)

  abbrev pub chance : (Value → Bytes → Reply host) → Option Value → Bytes → Bool × Option Value
  chance lua none call = (false, none)
  chance lua (some d) call = chance_of (lua d call) (some d)

  abbrev pub chances :
      (Value → Bytes → Reply host) → List Bytes → Bool × Option Value → Bool × Option Value
  chances lua [] (flag, d) = (flag, d)
  chances lua (call ∷ calls) (flag, d) =
      let (ok, after) = chance lua d call in chances lua calls (flag || ok, after)

  abbrev pub frame_calls : List Bytes
  frame_calls =
      codes "preFrame" ∷ codes "latePreFrame" ∷ codes "intraFrame" ∷ codes "postFrame" ∷ []

  -- A frame is run if the one before it gave a chance; none for an application that gave up.
  abbrev pub lives : List Frame → Bool × Option Value → Option (Bool × Option Value)
  lives [] given = some given
  lives (f ∷ fs) (false, d) = none
  lives (f ∷ fs) (true, d) = lives fs (chances f.lua frame_calls (false, d))

  abbrev pub status : App host → Bool × Option Value
  status app = (app.success_flag, app.delegate)

  abbrev pub Lives : Option (Bool × Option Value) → Ended host → Type 0
  Lives none r = (q : App host) × (r ≡ exited 1 q) × (q.kernel_stopped ≡ true)
  Lives (some given) r = (b : Bool) × (q : App host) × (r ≡ running b q) × (status q ≡ given)

  -- What stays the same in a call to the delegate.
  abbrev pub SameTimes : App host → App host → Type 0
  SameTimes app q =
      (q.last_pre_frame_time ≡ app.last_pre_frame_time) × (q.time_delta ≡ app.time_delta)

  set_one_lem :
      (v : Value) (app : App host)
      → let q = (set_app_delegate host v app).1 in
        (status q ≡ (app.success_flag || is_table v, if is_table v then some v else app.delegate))
        × SameTimes app q
  unfolding set_app_delegate
  set_one_lem v app = elim (Bool-cases (is_table v)) [
    | inl table ↦ rw table (ap (λ (b : Bool). (b, some v)) {x = true} (ground arith), (refl, refl))
    | inr other ↦
        rw other
          (ap (λ (b : Bool). (b, app.delegate)) {x = app.success_flag} (ground arith), (refl, refl))
  ]

  set_all_lem :
      (vs : List Value) (app : App host)
      → (status (set_all host vs app)
          ≡ (app.success_flag || any_table vs, last_table vs app.delegate))
        × SameTimes app (set_all host vs app)
  unfolding set_all
  set_all_lem [] app = (ap (λ (b : Bool). (b, app.delegate)) (ground arith), (refl, refl))
  set_all_lem (v ∷ vs) app =
      let (one, (time, delta)) = set_one_lem v app in
      let (all, (time', delta')) = set_all_lem vs (set_app_delegate host v app).1 in
      (
        all
            ∙ ap (λ (s : Bool × Option Value). (s.0 || any_table vs, last_table vs s.1)) one
            ∙ ap (λ (b : Bool). (b, last_table vs (if is_table v then some v else app.delegate)))
                {x = (app.success_flag || is_table v) || any_table vs} (ground arith),
        (time' ∙ time, delta' ∙ delta),
      )

  -- A call that is not required goes on, with the chance that the reply gives.
  forward_call_lem :
      (lua : Value → Bytes → Reply host) (call : Bytes) (app : App host)
      → (b : Bool) × (q : App host) × (forward_call_to_delegate host lua call false app
          ≡ running b q)
        × (status q ≡ chances lua (call ∷ []) (status app))
        × SameTimes app q
  unfolding forward_call_to_delegate
  forward_call_lem lua call app = go app.delegate refl
    where
      replied :
          (d : Value)
          → app.delegate ≡ some d
          → (r : Reply host)
          → (b : Bool) × (q : App host) × (forward_to host r call false app ≡ running b q)
            × (status q ≡ (app.success_flag || (chance_of r (some d)).0, (chance_of r (some d)).1))
            × SameTimes app q
      replied d e absent =
          unfold forward_to in
          (
            false,
            app,
            refl,
            ap₂ (λ (b : Bool) (o : Option Value). (b, o)) (ground arith) e,
            (refl, refl),
          )
      replied d e (succeeded set) =
          let (all, (time, delta)) = set_all_lem set app in
          unfold forward_to in
          (
            true,
            record (set_all host set app) { success_flag = true },
            refl,
            ap₂ (λ (b : Bool) (o : Option Value). (b, o)) {x = true} (ground arith)
                (ap (λ (s : Bool × Option Value). s.1) all ∙ ap (last_table set) e),
            (time, delta),
          )
      replied d e (failed set error) =
          let (all, (time, delta)) = set_all_lem set app in
          unfold forward_to in
          (
            false,
            _,
            refl,
            all
                ∙ ap (λ (o : Option Value). (app.success_flag || any_table set, last_table set o))
                    e,
            (time, delta),
          )

      go :
          (o : Option Value)
          → app.delegate ≡ o
          → (b : Bool) × (q : App host) × (forward_call_to_delegate host lua call false app
              ≡ running b q)
            × (status q ≡ chances lua (call ∷ []) (status app))
            × SameTimes app q
      go none e = rw e (
        false,
        record app { delegate = none },
        refl,
        ap (λ (b : Bool). (b, none)) {x = app.success_flag} (ground arith),
        (refl, refl),
      )
      go (some d) e = simp (forward_call_to_delegate, e) (replied d e (lua d call))

  -- A step of a frame that goes on, with its chance.
  abbrev pub Went :
      (Value → Bytes → Reply host) → Bytes → Bool × Option Value → App host → Ended host → Type 0
  Went lua call given app r =
      (b : Bool) × (q : App host) × (r ≡ running b q)
      × (status q ≡ chances lua (call ∷ []) given)
      × SameTimes app q

  late_pre_frame-Went :
      (lua : Value → Bytes → Reply host) (app : App host)
      → Went lua (codes "latePreFrame") (status app) app (late_pre_frame host lua app)
  unfolding late_pre_frame
  late_pre_frame-Went lua app =
      let (b, q, ran, gave, same) = forward_call_lem lua (codes "latePreFrame") app in
      rw ran (true, _, refl, gave, same)

  -- The first step of a frame, for an application that does not give up.
  pub pre_frame_lem :
      (lua : Value → Bytes → Reply host) (head_time : Option ℕ) (app : App host)
      → app.success_flag ≡ true
      → let cur = current_time host head_time app in
        (q : App host) × (pre_frame host lua head_time app ≡ running true q)
        × (status q ≡ chances lua (codes "preFrame" ∷ []) (false, app.delegate))
        × (q.last_pre_frame_time ≡ cur)
        × (q.time_delta ≡ host.secd (time_since host app.last_pre_frame_time cur))
  unfolding pre_frame
  pre_frame_lem lua head_time app h =
      let cur = current_time host head_time app in
      let begun = record app {
        success_flag = false;
        time_delta = host.secd (time_since host app.last_pre_frame_time cur);
      } in
      let (b, q, ran, gave, (time, delta)) = forward_call_lem lua (codes "preFrame") begun in
      simp (h, ran) (record q { last_pre_frame_time = cur }, refl, gave, refl, delta)

  -- A frame of an application that does not give up.
  pub run_frame_lem :
      (f : Frame) (app : App host)
      → app.success_flag ≡ true
      → let cur = current_time host f.head_time app in
        (b : Bool) × (q : App host) × (run_frame f app ≡ running b q)
        × (status q ≡ chances f.lua frame_calls (false, app.delegate))
        × (q.last_pre_frame_time ≡ cur)
        × (q.time_delta ≡ host.secd (time_since host app.last_pre_frame_time cur))
  unfolding intra_frame post_frame
  run_frame_lem f app h =
      let (p, ran, gave, time, delta) = pre_frame_lem f.lua f.head_time app h in
      let (b1, q, ran1, gave1, (time1, delta1)) = late_pre_frame-Went f.lua p in
      let (b2, r, ran2, gave2, (time2, delta2)) = forward_call_lem f.lua (codes "intraFrame") q in
      let (b3, s, ran3, gave3, (time3, delta3)) = forward_call_lem f.lua (codes "postFrame") r in
      let next = λ (call : Bytes). chances f.lua (call ∷ []) in
      rw (ran, ran1, ran2, ran3)
        (
          b3,
          s,
          refl,
          gave3
              ∙ ap (next (codes "postFrame")) (
                  gave2
                  ∙ ap (next (codes "intraFrame")) (gave1 ∙ ap (next (codes "latePreFrame")) gave)),
          time3 ∙ time2 ∙ time1 ∙ time,
          delta3 ∙ delta2 ∙ delta1 ∙ delta,
        )

  -- The application goes on, frame by frame, exactly as long as each frame but the last gave it a
  -- chance: a successful call to its delegate, or a new delegate. In the first frame behind one that
  -- did not, it stops the kernel and exits with status 1. A new application has its chance.
  pub run_frames_lem :
      (fs : List Frame) (app : App host) → Lives (lives fs (status app)) (run_frames fs app)
  run_frames_lem [] app = (true, app, refl, refl)
  run_frames_lem (f ∷ fs) app = elim (Bool-cases app.success_flag) [
    | inl on ↦
        let (b, q, ran, gave, _, _) = run_frame_lem f app on in
        simp (on, ran, ← gave) (run_frames_lem fs q)
    | inr off ↦ unfold pre_frame in rw off (_, refl, refl)
  ]
