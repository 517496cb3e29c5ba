-- ===== src/RunBuffer/Cluster.antt =====
-- Two nodes of a cluster over the frames of vrjugglua/LuaRunBuffer.cpp: the node that chunks are added to
-- writes its buffer, the other reads it, and both run theirs. What is added to the local buffer between
-- the synchronisation and the run is run by the local node alone.
pub mod Agreeing
pub mod Framing
pub mod Late
use vr_jugglua.Prelude.{
  ℕ, ◌+◌, ◌-◌, ◌<◌, ◌≤◌, ◌||◌, ◌≡◌, ◌⊎◌, refl, sym, ap, ◌∙◌, subst, inl, inr, Bool, true, false,
  List, [], ◌∷◌, ◌++◌, Bytes, arith, length, take, drop,
}
use mathlib.Core.List.{append_assoc, append-nil}
use vr_jugglua.Lua.{Api}
use vr_jugglua.CircularBuffer.{CircularBuffer, RingLaws, size}
use vr_jugglua.ObjectStream.{ObjectStream, StreamLaws}
use vr_jugglua.ScriptHost.{Script, Bindings, Result, returned, thrown, is_valid}
use vr_jugglua.RunBuffer.{
  RunBuffer, Turn, with_buf, push_all, run_buffer, write_object, read_object,
}
use vr_jugglua.RunBuffer.Capacity.{
  SameCapacity, capacity-push_all, run_buffer-SameCapacity, capacity-read_object,
}
use vr_jugglua.RunBuffer.Chunks.{Runs, Runs-append, Runs-same, run_buffer-drained}
use vr_jugglua.RunBuffer.Running.{RanFirst, push_all_lem, run_buffer_lem, run_chunks}
use vr_jugglua.RunBuffer.Sharing.{keep_last, read_object-write_object}

abbrev pub is_some : List Bytes → Bool
is_some [] = false
is_some (x ∷ xs) = true

module _ (lua : Api) (ring : CircularBuffer) (stream : ObjectStream) where
  open stream use {Writer, Reader, written, left}

  -- What is pushed to the local buffer, as far as there is space, before it is written and between that
  -- and the run, and what happens around each round of the runs of the two nodes.
  pub record Frame : Type 0 where
    pub added : List Bytes
    pub late : List Bytes
    pub local_turns : ℕ → Turn lua ring
    pub other_turns : ℕ → Turn lua ring

  abbrev pub both_run :
      Bindings lua
      → Frame
      → RunBuffer lua ring
      → RunBuffer lua ring
      → Result (RunBuffer lua ring × RunBuffer lua ring)
  both_run luabind frame local other = elim (run_buffer lua ring luabind frame.local_turns local) [
    | thrown e ↦ thrown e
    | returned a ↦ elim (run_buffer lua ring luabind frame.other_turns other) [
      | thrown e ↦ thrown e
      | returned b ↦ returned (a.1, b.1)
    ]
  ]

  -- `blank` is a writer that is empty, and `deliver` gives what was written to the other node.
  abbrev pub run_frame :
      Bindings lua
      → Writer
      → (Writer → Reader)
      → Frame
      → RunBuffer lua ring
      → RunBuffer lua ring
      → Result (RunBuffer lua ring × RunBuffer lua ring)
  run_frame luabind blank deliver frame local other =
      let filled = with_buf lua ring (push_all lua ring frame.added local.buf) local in
      let wrote = write_object lua ring stream filled blank in
      let got = read_object lua ring stream other (deliver wrote.0) in
      let later = with_buf lua ring (push_all lua ring frame.late wrote.1.buf) wrote.1 in
      both_run luabind frame later got.0.1

  abbrev pub run_frames :
      Bindings lua
      → Writer
      → (Writer → Reader)
      → List Frame
      → RunBuffer lua ring
      → RunBuffer lua ring
      → Result (RunBuffer lua ring × RunBuffer lua ring)
  run_frames luabind blank deliver [] local other = returned (local, other)
  run_frames luabind blank deliver (frame ∷ frames) local other =
      elim (run_frame luabind blank deliver frame local other) [
        | thrown e ↦ thrown e
        | returned r ↦ run_frames luabind blank deliver frames r.0 r.1
      ]

  -- No lock is missed.
  abbrev pub Undisturbed : List Frame → Type 0
  Undisturbed [] = Unit
  Undisturbed (frame ∷ frames) =
      ((i : ℕ) → (frame.local_turns i).acquired ≡ true)
      × ((i : ℕ) → (frame.other_turns i).acquired ≡ true)
      × Undisturbed frames

  -- Something came late.
  abbrev pub has_late : List Frame → Bool
  has_late [] = false
  has_late (frame ∷ frames) = is_some frame.late || has_late frames

  -- Both scripts have a state, and the buffers hold as many.
  abbrev pub Agree : RunBuffer lua ring → RunBuffer lua ring → Type 0
  Agree local other =
      (is_valid lua local.script ≡ true)
      × (is_valid lua other.script ≡ true)
      × (ring.capacity other.buf ≡ ring.capacity local.buf)

  -- The chunks that the local node runs in a frame.
  pub record Part : Type 0 where
    pub sent : List Bytes
    pub late : List Bytes

  abbrev pub all_of : List Part → List Bytes
  all_of [] = []
  all_of (part ∷ parts) = (part.sent ++ part.late) ++ all_of parts

  abbrev pub sent_of : List Part → List Bytes
  sent_of [] = []
  sent_of (part ∷ parts) = part.sent ++ sent_of parts

  -- Frame by frame, the late chunks of a part are the first of those that came late: all of them, or as
  -- many as filled a buffer of this capacity.
  abbrev pub IsLateOf : ℕ → List Frame → List Part → Type 0
  IsLateOf capacity [] [] = Unit
  IsLateOf capacity [] (part ∷ parts) = ⊥
  IsLateOf capacity (frame ∷ frames) [] = ⊥
  IsLateOf capacity (frame ∷ frames) (part ∷ parts) =
      ((j : ℕ) × (part.late ≡ take j frame.late)
        × ((part.late ≡ frame.late) ⊎ (length (part.sent ++ part.late) ≡ capacity)))
      × IsLateOf capacity frames parts

  -- The parts were run from the one pair of nodes to the other.
  abbrev pub RanParts :
      Bindings lua
      → List Frame
      → RunBuffer lua ring
      → RunBuffer lua ring
      → Result (RunBuffer lua ring × RunBuffer lua ring)
      → Type 0
  RanParts luabind frames local other (thrown e) = ⊥
  RanParts luabind frames local other (returned (a, b)) =
      Agree a b
      × (ring.capacity a.buf ≡ ring.capacity local.buf)
      × (parts : List Part) × (arrived : List Bytes) × (n m : ℕ) × (all_of parts
            ++ ring.contents a.buf
          ≡ ring.contents local.buf ++ arrived)
      × Runs lua luabind (all_of parts) local.script n a.script
      × Runs lua luabind (sent_of parts) other.script m b.script
      × IsLateOf (ring.capacity local.buf) frames parts

  -- The scripts are still the same, or something came late.
  abbrev pub IsSameUnlessLate :
      List Frame → Result (RunBuffer lua ring × RunBuffer lua ring) → Type 0
  IsSameUnlessLate frames (thrown e) = ⊥
  IsSameUnlessLate frames (returned (a, b)) = (b.script ≡ a.script) ⊎ (has_late frames ≡ true)
