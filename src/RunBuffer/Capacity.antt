-- ===== src/RunBuffer/Capacity.antt =====
-- No operation of vrjugglua/LuaRunBuffer.cpp changes how many chunks the buffer holds at most.
use vr_jugglua.Prelude.{
  ℕ, zero, suc, ◌+◌, ◌≡◌, refl, ◌∙◌, inl, inr, Bool, false, ◌||◌, List, [], ◌∷◌, Bytes, ◌==◌,
  if◌then◌else◌, get_or, Bool-cases,
}
use vr_jugglua.Lua.{Api}
use vr_jugglua.CircularBuffer.{CircularBuffer, RingLaws, size, full}
use vr_jugglua.ObjectStream.{ObjectStream}
use vr_jugglua.ScriptHost.{Script, Bindings, Result, returned, thrown, is_valid, run_string}
use vr_jugglua.RunBuffer.{
  RunBuffer, Turn, push_all, run_rounds, run_buffer, read_strings, read_object,
}

module _ (lua : Api) (ring : CircularBuffer) (laws : RingLaws ring) where
  open ring use {Buffer, capacity, contents, push_back, pop_front}

  pub capacity-push_all :
      (xs : List Bytes) (buf : Buffer) → capacity (push_all lua ring xs buf) ≡ capacity buf
  unfolding push_all
  capacity-push_all [] buf = refl
  capacity-push_all (x ∷ xs) buf = elim (Bool-cases (full ring buf)) [
    | inl no_space ↦ rw no_space (capacity-push_all xs buf)
    | inr space ↦ rw space (capacity-push_all xs (push_back x buf) ∙ laws.capacity-push_back x buf)
  ]

  -- What a run returns holds as many.
  abbrev pub SameCapacity : ℕ → Result (ℕ × RunBuffer lua ring) → Type 0
  SameCapacity n (thrown e) = Unit
  SameCapacity n (returned (count, b)) = capacity b.buf ≡ n

  run_rounds-SameCapacity :
      (luabind : Bindings lua) (turns : ℕ → Turn lua ring) (rounds count : ℕ)
      (b : RunBuffer lua ring) (n : ℕ)
      → capacity b.buf ≡ n
      → SameCapacity n (run_rounds lua ring luabind turns rounds count b)
  unfolding run_rounds
  run_rounds-SameCapacity luabind turns zero count b n h = h
  run_rounds-SameCapacity luabind turns (suc rounds) count b n h =
      let turn = turns rounds in
      let buf = push_all lua ring turn.added b.buf in
      let kept = capacity-push_all turn.added b.buf ∙ h in
      elim (Bool-cases (size ring b.buf == 0)) [
        | inl none_left ↦ rw none_left h
        | inr some_left ↦ elim (Bool-cases (b.run_block || turn.acquired)) [
          | inr missed ↦ rw (some_left, missed) kept
          | inl locked ↦
              rw (some_left, locked)
                (go (run_string lua luabind (get_or (contents buf) 0 []) false b.script) (λ ok q.
                  run_rounds-SameCapacity luabind turns rounds (if ok then count + 1 else count)
                    (record b { buf = pop_front buf; script = q }) n
                    (laws.capacity-pop_front buf ∙ kept)))
        ]
      ]
    where
      go :
          (ran : Result (Bool × Script lua))
          → ((ok : Bool) (q : Script lua)
              → SameCapacity n (
                  run_rounds lua ring luabind turns rounds
                    (if ok then count + 1 else count)
                    (record b {
                      buf = pop_front (push_all lua ring (turns rounds).added b.buf);
                      script = q;
                    })))
          → SameCapacity n (elim ran [
            | thrown e ↦ thrown e
            | returned r ↦
                run_rounds lua ring luabind turns rounds
                  (if r.0 then count + 1 else count)
                  (record b {
                    buf = pop_front (push_all lua ring (turns rounds).added b.buf);
                    script = r.1;
                  })
          ])
      go (thrown e) next = tt
      go (returned (ok, q)) next = next ok q

  pub run_buffer-SameCapacity :
      (luabind : Bindings lua) (turns : ℕ → Turn lua ring) (b : RunBuffer lua ring)
      → SameCapacity (capacity b.buf) (run_buffer lua ring luabind turns b)
  unfolding run_buffer
  run_buffer-SameCapacity luabind turns b = elim (Bool-cases (is_valid lua b.script)) [
    | inr invalid ↦ rw invalid refl
    | inl valid ↦ elim (Bool-cases (size ring b.buf == 0)) [
      | inl none_left ↦ rw (valid, none_left) refl
      | inr some_left ↦
          rw (valid, some_left)
            (run_rounds-SameCapacity luabind turns (size ring b.buf) 0 b (capacity b.buf) refl)
    ]
  ]

  module _ (stream : ObjectStream) where
    capacity-read_strings :
        (n : ℕ) (buf : Buffer) (r : stream.Reader)
        → capacity (read_strings lua ring stream n buf r).0 ≡ capacity buf
    unfolding read_strings
    capacity-read_strings zero buf r = refl
    capacity-read_strings (suc n) buf r =
        let (s, rest) = stream.read_string r in
        capacity-read_strings n (push_back s buf) rest ∙ laws.capacity-push_back s buf

    pub capacity-read_object :
        (b : RunBuffer lua ring) (r : stream.Reader)
        → capacity (read_object lua ring stream b r).0.1.buf ≡ capacity b.buf
    unfolding read_object
    capacity-read_object b r =
        let (n, rest) = stream.read_uint32 r in
        capacity-read_strings n (ring.clear b.buf) rest ∙ laws.capacity-clear b.buf
