-- ===== src/Tests/BufferTests.antt =====
-- Runs of the script host and the run buffers over the sample models of their libraries.
use vr_jugglua.Prelude.{
  ℕ, ◌≡◌, ◌<◌, ◌↔◌, refl, true, false, List, [], ◌∷◌, map, none, some, codes, arith, length,
}
use vr_jugglua.Lua.Sample.{State, text, sample, sample_laws, to_string, load, call_value}
use vr_jugglua.CircularBuffer.Sample as Ring
use vr_jugglua.ObjectStream.{Item}
use vr_jugglua.ObjectStream as Stream
use vr_jugglua.ScriptHost.{Script, Bindings, is_valid, returned, thrown, logic_error, run_string}
use vr_jugglua.RunBuffer.{RunBuffer, Turn, add_string, run_buffer, write_object, read_object}
use vr_jugglua.RunBuffer.Adding.{AddEnded, add_string_lem}
use vr_jugglua.RunBuffer.Running.{RanFirst, run_buffer_lem}
use vr_jugglua.RunBuffer.Sharing.{keep_last, read_object-write_object}
use vr_jugglua.RunBuffer.Cluster.{Frame, run_frame}
use vr_jugglua.SyncBuffer.{Cluster, SyncBuffer, cm_addfile, cm_addstring, init}
use vr_jugglua.SyncBuffer.FirstRun.{FirstRun, first_run_lem}
use vr_jugglua.SyncBuffer.EarlyBirds.{bird, Early, add_early, early_birds_lem}

abbrev state : State
state = record { stack = text (codes "a") ∷ []; globals = []; writes = [] }

abbrev luabind : Bindings sample
luabind = record {
  cast_string = to_string;
  call_function = λ name args s. (true, s);
  call_error = λ name args s. none;
}

abbrev script : Script sample
script = record { state = some state; has_print_function = true; printed = []; logged = [] }

-- A buffer of three places, of which two are taken.
abbrev buffer : RunBuffer sample Ring.sample
buffer = record {
  script = script;
  buf =
      Ring.sample.push_back (codes "!b")
        (Ring.sample.push_back (codes "a") (Ring.sample.with_capacity 3));
  max_run = 3;
  run_block = false;
}

abbrev small_buffer : RunBuffer sample Ring.sample
small_buffer = record buffer { buf = Ring.sample.with_capacity 1 }

-- In each round "c" is added; the lock is always taken.
abbrev turns : ℕ → Turn sample Ring.sample
turns i = record { added = codes "c" ∷ []; acquired = true }

-- The second chunk fails, and of the two that were added meanwhile none is run.
run_buffer_counts :
    (q : RunBuffer sample Ring.sample) × (run_buffer sample Ring.sample luabind turns buffer
      ≡ returned (1, q))
    × (Ring.sample.contents q.buf ≡ codes "c" ∷ codes "c" ∷ [])
unfolding run_buffer is_valid run_string load call_value
run_buffer_counts = (_, refl, refl)

add_string_lem_example :
    AddEnded sample Ring.sample true []
      (codes "c")
      false
      buffer
      (add_string sample Ring.sample true [] (codes "c") false buffer)
add_string_lem_example =
    add_string_lem sample Ring.sample Ring.sample_laws true [] (codes "c") false buffer

run_buffer_lem_example :
    RanFirst sample Ring.sample luabind turns
      (codes "a" ∷ codes "!b" ∷ [])
      0
      buffer
      (run_buffer sample Ring.sample luabind turns buffer)
unfolding is_valid
run_buffer_lem_example =
    run_buffer_lem sample Ring.sample Ring.sample_laws luabind turns buffer refl

abbrev items : List Item
items = (write_object sample Ring.sample Stream.sample buffer []).0

read_object-write_object_example :
    (let ((warned, b), r') = read_object sample Ring.sample Stream.sample small_buffer items in
      (Ring.sample.contents b.buf ≡ keep_last 1 (codes "a" ∷ codes "!b" ∷ []))
      × ((warned ≡ true) ↔ (1 < 2))
      × (b.max_run ≡ 2)
      × ((write_object sample Ring.sample Stream.sample buffer []).1.max_run ≡ 2)
      × (Stream.sample.left r' ≡ []))
unfolding write_object
read_object-write_object_example =
    read_object-write_object sample Ring.sample Stream.sample Stream.sample_laws Ring.sample_laws
      buffer small_buffer [] items [] (omega arith) refl refl

-- The other node, whose buffer holds something else.
abbrev other_buffer : RunBuffer sample Ring.sample
other_buffer = record buffer {
  buf = Ring.sample.push_back (codes "old") (Ring.sample.with_capacity 3);
}

abbrev frame : Frame sample Ring.sample Stream.sample
frame = record {
  added = codes "d" ∷ codes "e" ∷ [];
  late = codes "f" ∷ [];
  local_turns = turns;
  other_turns = λ i. record { added = []; acquired = true };
}

-- What comes late is run by the local node alone: only its script tells of the error.
late_chunk :
    (a b : RunBuffer sample Ring.sample) × (run_frame sample Ring.sample Stream.sample luabind []
        (λ w. w)
        (record frame {
          added = [];
          late = codes "!x" ∷ [];
          local_turns = λ i. record { added = []; acquired = true };
        })
        (record buffer { buf = Ring.sample.with_capacity 3 })
        other_buffer
      ≡ returned (a, b))
    × (length a.script.printed ≡ 1)
    × (b.script ≡ script)
unfolding run_buffer is_valid run_string load call_value write_object read_object
late_chunk = (_, _, refl, refl, refl)

-- Where the local node misses the lock, its chunks wait to be sent again, but the other has run them.
missed_lock :
    (a b : RunBuffer sample Ring.sample) × (run_frame sample Ring.sample Stream.sample luabind []
        (λ w. w)
        (record frame {
          added = [];
          late = [];
          local_turns = λ i. record { added = []; acquired = false };
        })
        buffer
        other_buffer
      ≡ returned (a, b))
    × (Ring.sample.contents a.buf ≡ codes "a" ∷ codes "!b" ∷ [])
    × (Ring.sample.contents b.buf ≡ [])
unfolding run_buffer is_valid run_string load call_value write_object read_object
missed_lock = (_, _, refl, refl, refl)

-- One more than the buffer has places.
abbrev birds : List Early
birds =
    record { command = cm_addfile; content = codes "f"; blocking = true }
    ∷ map (λ (c : ℕ). record { command = cm_addstring; content = c ∷ []; blocking = false })
        (codes "abcdefghij")

abbrev cluster : Cluster
cluster = record { is_local = false; acquired = λ i. true }

abbrev sync : SyncBuffer sample Ring.sample
sync = record {
  initialised = false;
  run_buf = small_buffer;
  early_birds = [];
  state = some state;
  warnings = [];
  console = some true;
}

early_birds_lem_example :
    (t : SyncBuffer sample Ring.sample) × (q : SyncBuffer sample Ring.sample) × (add_early sample
        Ring.sample cluster birds sync
      ≡ some (returned (map (λ (e : Early). true) birds, t)))
    × (init sample Ring.sample cluster t ≡ some (returned q))
    × (Ring.sample.contents q.run_buf.buf
        ≡ codes "dofile([==[f]==])" ∷ map (λ (c : ℕ). c ∷ []) (codes "abcdefghi"))
    × (q.early_birds ≡ [])
    × (q.console ≡ some false)
    × (init sample Ring.sample cluster q
        ≡ some (thrown (logic_error (codes "SynchronizedRunBuffer already initialized!"))))
early_birds_lem_example =
    early_birds_lem sample Ring.sample Ring.sample_laws cluster birds sync state (λ i. refl) refl
      refl refl

abbrev waiting : SyncBuffer sample Ring.sample
waiting = record sync { early_birds = map bird birds }

first_run_lem_example : FirstRun sample Ring.sample luabind turns cluster waiting
first_run_lem_example =
    first_run_lem sample Ring.sample Ring.sample_laws luabind turns cluster waiting state
      (λ i. refl) refl refl
