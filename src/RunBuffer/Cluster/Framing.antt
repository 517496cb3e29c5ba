-- ===== src/RunBuffer/Cluster/Framing.antt =====
-- One frame of two nodes that share a buffer of vrjugglua/LuaRunBuffer.cpp.
use vr_jugglua.Prelude.{
  inl, inr, ℕ, ◌<◌, ◌≤◌, ◌≡◌, refl, sym, ap, ◌∙◌, subst, true, List, [], ◌∷◌, ◌++◌, Bytes, arith,
  take, drop,
}
use mathlib.Core.List.{append_assoc, append-nil}
use vr_jugglua.Lua.{Api}
use vr_jugglua.CircularBuffer.{CircularBuffer, RingLaws, size}
use vr_jugglua.ObjectStream.{ObjectStream, StreamLaws}
use vr_jugglua.ScriptHost.{Bindings, returned}
use vr_jugglua.RunBuffer.{RunBuffer, with_buf, push_all, write_object, read_object}
use vr_jugglua.RunBuffer.Capacity.{
  SameCapacity, capacity-push_all, run_buffer-SameCapacity, capacity-read_object,
}
use vr_jugglua.RunBuffer.Chunks.{Runs, run_buffer-drained}
use vr_jugglua.RunBuffer.Running.{push_all_lem}
use vr_jugglua.RunBuffer.Sharing.{read_object-write_object}
use vr_jugglua.RunBuffer.Cluster.{Frame, both_run, run_frame, Agree, RanParts}
use vr_jugglua.RunBuffer.Cluster.Late.{push_all-take, all_or_filled}

module _ (lua : Api) (ring : CircularBuffer) (stream : ObjectStream) where
  open stream use {Writer, Reader, written, left}

  -- The two runs of a frame, behind what came late.
  both_run_lem :
      RingLaws ring
      → (luabind : Bindings lua) (frame : Frame lua ring stream) (local other : RunBuffer lua ring)
      → ((i : ℕ) → (frame.local_turns i).acquired ≡ true)
      → ((i : ℕ) → (frame.other_turns i).acquired ≡ true)
      → Agree lua ring stream local other
      → (a b : RunBuffer lua ring) × (n m : ℕ) × (both_run lua ring stream luabind frame local other
          ≡ returned (a, b))
        × Agree lua ring stream a b
        × (ring.capacity a.buf ≡ ring.capacity local.buf)
        × Runs lua luabind (ring.contents local.buf) local.script n a.script
        × Runs lua luabind (ring.contents other.buf) other.script m b.script
  both_run_lem laws luabind frame local other free free' (valid, valid', holds) =
      let (n, a, ran, runs) =
        run_buffer-drained lua luabind ring laws frame.local_turns local free valid in
      let (m, b, ran', runs') =
        run_buffer-drained lua luabind ring laws frame.other_turns other free' valid' in
      let held : ring.capacity a.buf ≡ ring.capacity local.buf =
        subst (SameCapacity lua ring laws (ring.capacity local.buf)) ran
          (run_buffer-SameCapacity lua ring laws luabind frame.local_turns local) in
      let held' : ring.capacity b.buf ≡ ring.capacity other.buf =
        subst (SameCapacity lua ring laws (ring.capacity other.buf)) ran'
          (run_buffer-SameCapacity lua ring laws luabind frame.other_turns other) in
      (
        a,
        b,
        n,
        m,
        rw (both_run, ran, ran') refl,
        (runs.1, runs'.1, held' ∙ holds ∙ sym held),
        held,
        runs,
        runs',
      )

  pub run_frame-RanParts :
      RingLaws ring
      → StreamLaws stream
      → (luabind : Bindings lua) (blank : Writer) (deliver : Writer → Reader)
        (frame : Frame lua ring stream) (local other : RunBuffer lua ring)
      → written blank ≡ []
      → ((w : Writer) → left (deliver w) ≡ written w)
      → ring.capacity local.buf < 4294967296
      → ((i : ℕ) → (frame.local_turns i).acquired ≡ true)
      → ((i : ℕ) → (frame.other_turns i).acquired ≡ true)
      → Agree lua ring stream local other
      → RanParts lua ring stream luabind
          (frame ∷ [])
          local
          other
          (run_frame lua ring stream luabind blank deliver frame local other)
  unfolding write_object read_object
  run_frame-RanParts laws sl luabind blank deliver frame local other fresh arrives fits free free'
        (valid, valid', holds) =
      let buf = push_all lua ring frame.added local.buf in
      let filled = with_buf lua ring buf local in
      let wrote = write_object lua ring stream filled blank in
      let got = read_object lua ring stream other (deliver wrote.0) in
      let later = with_buf lua ring (push_all lua ring frame.late buf) wrote.1 in
      let (more, pushed) = push_all_lem lua ring laws frame.added local.buf in
      let (j, behind, enough) = push_all-take lua ring laws frame.late buf in
      let capacity_filled : ring.capacity buf ≡ ring.capacity local.buf =
        capacity-push_all lua ring laws frame.added local.buf in
      let capacity_later : ring.capacity later.buf ≡ ring.capacity local.buf =
        capacity-push_all lua ring laws frame.late buf ∙ capacity_filled in
      let fits_size : size ring buf ≤ ring.capacity buf = laws.size_le_capacity buf in
      let (laid, _, _, _, _) =
        read_object-write_object lua ring stream sl laws filled other blank (deliver wrote.0) []
          (omega (arith, fits_size, fits, capacity_filled)) fresh
          (arrives wrote.0 ∙ sym (append-nil (written wrote.0))) in
      let kept : ring.contents got.0.1.buf ≡ ring.contents buf =
        laid
        ∙ ap (λ (k : ℕ). drop k (ring.contents buf)) {y = 0}
            (omega (arith, fits_size, holds, capacity_filled)) in
      let held = capacity-read_object lua ring laws stream other (deliver wrote.0) in
      let (a, b, n, m, ended, agree, held', runs, runs') =
        both_run_lem laws luabind frame later got.0.1 free free'
          (valid, valid', held ∙ holds ∙ sym capacity_later) in
      let sent = ring.contents buf in
      let late = take j frame.late in
      let all : (sent ++ late) ++ [] ≡ ring.contents later.buf =
        append-nil (sent ++ late) ∙ sym behind in
      subst (RanParts lua ring stream luabind (frame ∷ []) local other) (sym ended) (
        agree,
        held' ∙ capacity_later,
        record { sent = sent; late = late } ∷ [],
        more ++ (late ++ ring.contents a.buf),
        n,
        m,
        arranged (ring.contents local.buf) more late (ring.contents a.buf) sent pushed,
        subst (λ (l : List Bytes). Runs lua luabind l local.script n a.script) (sym all) runs,
        subst (λ (l : List Bytes). Runs lua luabind l other.script m b.script)
            (kept ∙ sym (append-nil sent)) runs',
        (
          (
            j,
            refl,
            elim (all_or_filled lua ring later.buf late frame.late sent behind enough) [
              | inl all_late ↦ inl all_late
              | inr filled ↦ inr (filled ∙ capacity_later)
            ],
          ),
          tt,
        ),
      )
    where
      arranged :
          (before more late after sent : List Bytes)
          → sent ≡ before ++ more
          → ((sent ++ late) ++ []) ++ after ≡ before ++ (more ++ (late ++ after))
      arranged before more late after sent e =
          ap (λ (l : List Bytes). l ++ after) (append-nil (sent ++ late))
          ∙ append_assoc sent late after
          ∙ ap (λ (l : List Bytes). l ++ (late ++ after)) e
          ∙ append_assoc before more (late ++ after)
