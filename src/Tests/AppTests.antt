-- ===== src/Tests/AppTests.antt =====
-- Runs of the application proxy over a small model of its libraries.
use vr_jugglua.Prelude.{
  ℕ, ◌≡◌, Bool, true, List, [], ◌∷◌, map, take, none, some, Bytes, codes, char_at, ◌==◌,
  if◌then◌else◌,
}
use vr_jugglua.OsgApp.{Host, Reply, absent, succeeded, failed, App, new_app, set_app_delegate}
use vr_jugglua.OsgApp.Frames.{Frame, run_frames, Lives, status, run_frames_lem}
use vr_jugglua.OsgApp.Times.{deltas, frames_run, differences, deltas_lem}

-- A value is a table or not; the other project's types do not matter.
abbrev host : Host
host = record {
  Value = Bool;
  is_table = λ v. v;
  show_value = λ v. codes "value";
  Node = Unit;
  Double = ℕ;
  minus_one = 0;
  secd = λ n. n;
}

-- A delegate whose `preFrame` works, and one all of whose calls fail.
abbrev working : Bool → Bytes → Reply host
working v call = if char_at call 1 == b'r' then succeeded [] else absent

abbrev failing : Bool → Bytes → Reply host
failing v call = failed [] (codes "error")

abbrev frames : List (Frame host)
frames =
    record { lua = working; head_time = some 5 }
    ∷ record { lua = failing; head_time = some 9 }
    ∷ record { lua = working; head_time = none }
    ∷ []

abbrev app : App host
app = (set_app_delegate host true (new_app host)).1

run_frames_lem_example : Lives host none (run_frames host frames app)
unfolding set_app_delegate new_app
run_frames_lem_example = run_frames_lem host frames app

deltas_lem_example :
    deltas host frames app
    ≡ map host.secd (
        take
          (frames_run host frames (status host app))
          (differences app.last_pre_frame_time (map (λ (f : Frame host). f.head_time) frames)))
deltas_lem_example = deltas_lem host frames app

-- The delegate's `initScene` fails.
