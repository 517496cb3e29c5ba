-- ===== src/OsgApp/Scene.antt =====
-- How the application of vrjugglua/OsgAppProxy.cpp sets up its scene.
use vr_jugglua.Prelude.{
  ◌≡◌, refl, ap, ◌∙◌, inl, inr, true, false, List, [], ◌∷◌, ◌++◌, none, Option, some, Bytes, codes,
  Bool-cases,
}
use vr_jugglua.OsgApp.{
  Host, Reply, absent, succeeded, failed, App, Ended, running, exited, set_app_delegate, set_all,
  forward_to, forward_call_to_delegate, init_scene, failure_text,
}

module _ (host : Host) where
  open host use {Value, Node, is_table}

  -- The delegates that Lua code sets change neither the scene nor what was printed.
  set_all_scene :
      (vs : List Value) (app : App host)
      → ((set_all host vs app).scene ≡ app.scene) × ((set_all host vs app).printed ≡ app.printed)
  unfolding set_all
  set_all_scene [] app = (refl, refl)
  set_all_scene (v ∷ vs) app =
      let (scene, printed) = set_one v in
      let (scene', printed') = set_all_scene vs (set_app_delegate host v app).1 in
      (scene' ∙ scene, printed' ∙ printed)
    where
      set_one :
          (v : Value)
          → ((set_app_delegate host v app).1.scene ≡ app.scene)
            × ((set_app_delegate host v app).1.printed ≡ app.printed)
      set_one v = elim (Bool-cases (is_table v)) [
        | inl table ↦ unfold set_app_delegate in simp table (refl, refl)
        | inr other ↦ unfold set_app_delegate in simp other (refl, refl)
      ]

  -- The end of the set-up with a delegate, by its reply to the call of `initScene`.
  abbrev pub SetUp : Node → App host → Reply host → Ended host → Type 0
  SetUp xform app absent r =
      (q : App host) × (r ≡ running false q) × (q.scene ≡ some xform) × (q.printed ≡ app.printed)
  SetUp xform app (succeeded set) r =
      (q : App host) × (r ≡ running true q)
      × (q.scene ≡ some xform)
      × (q.printed ≡ app.printed)
      × (q.success_flag ≡ true)
  SetUp xform app (failed set error) r =
      (q : App host) × (r ≡ exited 1 q)
      × (q.printed ≡ app.printed ++ (failure_text host (codes "initScene") error ∷ []))

  forward_to-SetUp :
      (xform : Node) (app : App host) (reply : Reply host)
      → SetUp xform app reply
          (forward_to host reply (codes "initScene") true (record app { scene = some xform }))
  unfolding forward_to
  forward_to-SetUp xform app absent = (record app { scene = some xform }, refl, refl, refl)
  forward_to-SetUp xform app (succeeded set) =
      let (scene, printed) = set_all_scene set (record app { scene = some xform }) in
      (_, refl, scene, printed, refl)
  forward_to-SetUp xform app (failed set error) =
      let (scene, printed) = set_all_scene set (record app { scene = some xform }) in
      (
        _,
        refl,
        ap (λ (texts : List Bytes). texts ++ (failure_text host (codes "initScene") error ∷ []))
            printed,
      )

  -- The end of the set-up, by the delegate.
  abbrev pub SceneEnd :
      (Value → Bytes → Reply host) → Node → App host → Option Value → Ended host → Type 0
  SceneEnd lua xform app none r =
      (q : App host) × (r ≡ exited 1 q) × (q.scene ≡ app.scene) × (q.printed ≡ app.printed)
  SceneEnd lua xform app (some d) r = SetUp xform app (lua d (codes "initScene")) r

  -- Setting up the scene ends the process with status 1 if and only if there is no delegate, or its
  -- `initScene` fails, whose error is then printed. Otherwise the new node is the scene, also for a
  -- delegate that has no `initScene`.
  pub init_scene_lem :
      (lua : Value → Bytes → Reply host) (xform : Node) (app : App host)
      → SceneEnd lua xform app app.delegate (init_scene host lua xform app)
  unfolding init_scene forward_call_to_delegate
  init_scene_lem lua xform app = go app.delegate refl
    where
      go :
          (o : Option Value)
          → app.delegate ≡ o
          → SceneEnd lua xform app o (init_scene host lua xform app)
      go none missing = simp (init_scene, missing) (_, refl, refl, refl)
      go (some d) found =
          simp (init_scene, forward_call_to_delegate, found)
            (forward_to-SetUp xform (record app { delegate = some d }) (lua d (codes "initScene")))
