-- ===== src/OsgApp.antt =====
-- `OsgAppProxy` of vrjugglua/OsgAppProxy.cpp: the VR Juggler application that forwards each step of a
-- frame to a delegate, which is a Lua table.
pub mod Frames
pub mod Times
pub mod Scene
use vr_jugglua.Prelude.{
  ℕ, zero, suc, ◌+◌, ◌-◌, Bool, true, false, not, List, [], ◌∷◌, ◌++◌, Option, none, some, Bytes,
  codes, leb, if◌then◌else◌,
}

-- Other projects' code: the values of Lua, the test `luabind::type(…) == LUA_TTABLE`, and the text of a
-- value in the log; the nodes of OpenSceneGraph; the floating-point numbers, and `secd` of an interval.
pub record Host : Type 1 where
  pub Value : Type 0
  pub is_table : Value → Bool
  pub show_value : Value → Bytes
  pub Node : Type 0
  pub Double : Type 0
  pub minus_one : Double
  pub secd : ℕ → Double

module _ (host : Host) where
  open host use {Value, is_table, show_value, Node, Double, minus_one, secd}

  -- What the Lua code does at a call of one of its functions, which may set other delegates; or that
  -- the delegate has no such function. A failure comes with the text of the error.
  pub data Reply : Type 0 where
    absent : Reply
    succeeded : List Value → Reply
    failed : List Value → Bytes → Reply

  -- `_delegate`, `_delegationSuccessFlag`, `_rootNode`, `_lastPreFrameTime` in its base unit,
  -- `_timeDelta`; whether the application is the kernel's, and whether it stopped the kernel; how often
  -- `vrj::OsgApp` updated the scene; and what `doPrint` and the log got.
  pub record App : Type 0 where
    pub delegate : Option Value
    pub success_flag : Bool
    pub scene : Option Node
    pub last_pre_frame_time : ℕ
    pub time_delta : Double
    pub active : Bool
    pub kernel_stopped : Bool
    pub scene_updates : ℕ
    pub printed : List Bytes
    pub logged : List Bytes

  -- The process goes on with a result, or `std::exit` ended it with a status.
  pub data Ended : Type 0 where
    running : Bool → App → Ended
    exited : ℕ → App → Ended

  abbrev pub and_then : Ended → (App → Ended) → Ended
  and_then (running b app) next = next app
  and_then (exited status app) next = exited status app

  unfoldable pub new_app : App
  new_app = record {
    delegate = none;
    success_flag = true;
    scene = none;
    last_pre_frame_time = 0;
    time_delta = minus_one;
    active = false;
    kernel_stopped = false;
    scene_updates = 0;
    printed = [];
    logged = [];
  }

  abbrev pub log : Bytes → App → App
  log text app = record app { logged = app.logged ++ (text ∷ []) }

  abbrev pub set_active_application : App → App
  set_active_application app = record app { active = true }

  unfoldable pub set_app_delegate : Value → App → Bool × App
  set_app_delegate delegate app =
      if is_table delegate
      then (true, record app { delegate = some delegate; success_flag = true })
      else (
        false,
        log (codes "Lua app tried to set an invalid app delegate: " ++ show_value delegate) app,
      )

  -- The delegates that a call of the Lua code sets, in order.
  unfoldable pub set_all : List Value → App → App
  unfolding set_app_delegate
  set_all [] app = app
  set_all (v ∷ vs) app = set_all vs (set_app_delegate v app).1

  abbrev pub failure_text : Bytes → Bytes → Bytes
  failure_text call error =
      codes "Calling '"
      ++ (call
          ++ (codes
                "' in the app delegate failed - check your lua code!\nTop of the Lua stack (error message) is: '"
              ++ (error ++ codes "'")))

  abbrev pub print : Bytes → App → App
  print text app = record app { printed = app.printed ++ (text ∷ []) }

  unfoldable pub forward_to : Reply → Bytes → Bool → App → Ended
  unfolding set_all
  forward_to absent call required app = running false app
  forward_to (succeeded set) call required app =
      running true (record (set_all set app) { success_flag = true })
  forward_to (failed set error) call required app =
      let told = print (failure_text call error) (set_all set app) in
      if required then exited 1 told else running false told

  -- `lua` says what the Lua code does at the calls of this step.
  unfoldable pub forward_call_to_delegate : (Value → Bytes → Reply) → Bytes → Bool → App → Ended
  unfolding forward_to
  forward_call_to_delegate lua call required app = elim app.delegate [
    | none ↦ running false app
    | some delegate ↦ forward_to (lua delegate call) call required app
  ]

  unfoldable pub init_scene : (Value → Bytes → Reply) → Node → App → Ended
  unfolding forward_call_to_delegate
  init_scene lua xform app = elim app.delegate [
    | none ↦
        exited 1
          (log (codes "No delegate has been set yet - exiting to avoid busy-waiting forever.") app)
    | some delegate ↦
        forward_call_to_delegate lua (codes "initScene") true (record app { scene = some xform })
  ]

  -- `head_time` is the head update time of the first user, none for no users.
  abbrev pub current_time : Option ℕ → App → ℕ
  current_time none app = app.last_pre_frame_time
  current_time (some time) app = time

  -- The difference of two `vpr::Interval`s, whose 64 bits are unsigned and wrap around.
  abbrev pub unsigned_difference : ℕ → ℕ → ℕ
  unsigned_difference cur last =
      if leb last cur then cur - last else (18446744073709551616 + cur) - last

  -- `diff_time`, which is set to 0 where the time did not go on.
  abbrev pub time_since : ℕ → ℕ → ℕ
  time_since last cur = if leb cur last then 0 else unsigned_difference cur last

  abbrev pub bail_out : App → Ended
  bail_out app =
      let told = log (codes "Assuming application failure, bailing out.") (
        log (codes "A full frame loop completed without any successful calls to the delegate.")
          app) in
      exited 1 (record told { kernel_stopped = true })

  unfoldable pub pre_frame : (Value → Bytes → Reply) → Option ℕ → App → Ended
  unfolding forward_call_to_delegate
  pre_frame lua head_time app =
      let cur = current_time head_time app in
      let diff = time_since app.last_pre_frame_time cur in
      let begun = record app { success_flag = false; time_delta = secd diff } in
      if not app.success_flag
      then bail_out app
      else and_then (forward_call_to_delegate lua (codes "preFrame") false begun)
          (λ (q : App). running true (record q { last_pre_frame_time = cur }))

  unfoldable pub late_pre_frame : (Value → Bytes → Reply) → App → Ended
  unfolding forward_call_to_delegate
  late_pre_frame lua app =
      and_then (forward_call_to_delegate lua (codes "latePreFrame") false app)
        (λ (q : App). running true (record q { scene_updates = q.scene_updates + 1 }))

  unfoldable pub intra_frame : (Value → Bytes → Reply) → App → Ended
  unfolding forward_call_to_delegate
  intra_frame lua app = forward_call_to_delegate lua (codes "intraFrame") false app

  unfoldable pub post_frame : (Value → Bytes → Reply) → App → Ended
  unfolding forward_call_to_delegate
  post_frame lua app = forward_call_to_delegate lua (codes "postFrame") false app

  -- The destructor.
  unfoldable pub destroy : (Value → Bytes → Reply) → App → Ended
  unfolding forward_call_to_delegate
  destroy lua app =
      and_then (forward_call_to_delegate lua (codes "exit") false app)
        (λ (q : App). running true (record q { delegate = none }))
