-- ===== src/RunBuffer/Adding.antt =====
-- Adding chunks to the buffer of vrjugglua/LuaRunBuffer.cpp: what each way of adding leaves behind.
use vr_jugglua.Prelude.{
  ℕ, zero, suc, ◌-◌, ◌<◌, ◌≡◌, refl, ap, ◌∙◌, ◌⊎◌, inl, inr, Bool, true, false, List, [], ◌∷◌, ◌++◌,
  Option, none, some, Bytes, arith, take, drop, Bool-cases, subst,
}
use vr_jugglua.Lua.{Api}
use vr_jugglua.CircularBuffer.{CircularBuffer, RingLaws, size, full}
use vr_jugglua.ScriptHost.{is_valid}
use vr_jugglua.RunBuffer.{RunBuffer, wait_for_space, with_buf, add_string, add_file, file_chunk}

module _ (ring : CircularBuffer) where
  open ring use {Buffer}

  -- The buffer behind some waits, one after the other.
  abbrev pub waited : List (Buffer → Buffer) → Buffer → Buffer
  waited [] buf = buf
  waited (others ∷ waits) buf = waited waits (others buf)

  -- It was full behind each of the first `k` waits but the last.
  abbrev pub IsFullBefore : ℕ → List (Buffer → Buffer) → Buffer → Type 0
  IsFullBefore k waits buf = (j : ℕ) → j < k → full ring (waited (take j waits) buf) ≡ true

  -- The waiting ends at the first buffer that has space, or goes on behind every wait.
  abbrev pub Waited : List (Buffer → Buffer) → Buffer → Option Buffer → Type 0
  Waited waits buf none = (j : ℕ) → full ring (waited (take j waits) buf) ≡ true
  Waited waits buf (some seen) =
      (k : ℕ) × (seen ≡ waited (take k waits) buf)
      × (full ring seen ≡ false)
      × IsFullBefore k waits buf

  full_at_end :
      (buf : Buffer) → full ring buf ≡ true → (j : ℕ) → full ring (waited (take j []) buf) ≡ true
  full_at_end buf h zero = h
  full_at_end buf h (suc j) = h

  full_at_first :
      (others : Buffer → Buffer) (waits : List (Buffer → Buffer)) (buf : Buffer)
      → full ring buf ≡ true
      → ((j : ℕ) → full ring (waited (take j waits) (others buf)) ≡ true)
      → (j : ℕ) → full ring (waited (take j (others ∷ waits)) buf) ≡ true
  full_at_first others waits buf h later zero = h
  full_at_first others waits buf h later (suc j) = later j

  IsFullBefore-suc :
      (others : Buffer → Buffer) (waits : List (Buffer → Buffer)) (buf : Buffer) (k : ℕ)
      → full ring buf ≡ true
      → IsFullBefore k waits (others buf)
      → IsFullBefore (suc k) (others ∷ waits) buf
  IsFullBefore-suc others waits buf k h before zero lt = h
  IsFullBefore-suc others waits buf k h before (suc j) lt = before j (omega arith)

  Waited-cons :
      (others : Buffer → Buffer) (waits : List (Buffer → Buffer)) (buf : Buffer) (r : Option Buffer)
      → full ring buf ≡ true
      → Waited waits (others buf) r
      → Waited (others ∷ waits) buf r
  Waited-cons others waits buf none h later = full_at_first others waits buf h later
  Waited-cons others waits buf (some seen) h (k, at, space, before) =
      (suc k, at, space, IsFullBefore-suc others waits buf k h before)

  wait_for_space_lem :
      (waits : List (Buffer → Buffer)) (buf : Buffer)
      → (lua : Api) → Waited waits buf (wait_for_space lua ring waits buf)
  unfolding wait_for_space
  wait_for_space_lem [] buf lua = elim (Bool-cases (full ring buf)) [
    | inl h ↦ rw h (full_at_end buf h)
    | inr h ↦ rw h (0, refl, h, λ j lt. absurd (omega arith))
  ]
  wait_for_space_lem (others ∷ waits) buf lua = elim (Bool-cases (full ring buf)) [
    | inl h ↦ rw h (Waited-cons others waits buf _ h (wait_for_space_lem waits (others buf) lua))
    | inr h ↦ rw h (0, refl, h, λ j lt. absurd (omega arith))
  ]

  -- A push where there is space drops nothing.
  pub push_back-space :
      RingLaws ring
      → (x : Bytes) (buf : Buffer) → full ring buf ≡ false
      → ring.contents (ring.push_back x buf) ≡ ring.contents buf ++ (x ∷ [])
  push_back-space laws x buf h =
      let room : suc (size ring buf) - ring.capacity buf ≡ 0 =
        ground (arith, laws.size_le_capacity buf) in
      laws.contents-push_back x buf ∙ ap (λ (n : ℕ). drop n (ring.contents buf ++ (x ∷ []))) room

module _ (lua : Api) (ring : CircularBuffer) where
  open ring use {Buffer, contents}

  -- How an addition ended. While it still waits, the buffer was full at every wake-up. It was refused,
  -- and changed nothing, for want of a Lua state, or, where it must not block, of the lock or of space.
  -- Otherwise the chunk stands behind all that the buffer held then: as it was given, where it must
  -- not block, and at the first wake-up that found space, where it may.
  abbrev pub AddEnded :
      Bool
      → List (Buffer → Buffer)
      → Bytes
      → Bool
      → RunBuffer lua ring
      → Option (Bool × RunBuffer lua ring)
      → Type 0
  AddEnded acquired waits str blocking b none =
      (is_valid lua b.script ≡ true)
      × (blocking ≡ true)
      × ((j : ℕ) → full ring (waited ring (take j waits) b.buf) ≡ true)
  AddEnded acquired waits str blocking b (some (false, q)) =
      (q ≡ b)
      × ((is_valid lua b.script ≡ false)
          ⊎ (blocking ≡ false) × ((acquired ≡ false) ⊎ (full ring b.buf ≡ true)))
  AddEnded acquired waits str blocking b (some (true, q)) =
      (is_valid lua b.script ≡ true)
      × (seen : Buffer) × (full ring seen ≡ false)
      × (contents q.buf ≡ contents seen ++ (str ∷ []))
      × (q ≡ with_buf lua ring q.buf b)
      × ((blocking ≡ false) × (acquired ≡ true) × (seen ≡ b.buf)
          ⊎ (blocking ≡ true)
            × (k : ℕ) × (seen ≡ waited ring (take k waits) b.buf)
            × IsFullBefore ring k waits b.buf)

  -- `addFile` adds the chunk that runs the file.
  pub add_file-add_string :
      (acquired : Bool) (waits : List (Buffer → Buffer)) (name : Bytes) (blocking : Bool)
      (b : RunBuffer lua ring)
      → add_file lua ring acquired waits name blocking b
        ≡ add_string lua ring acquired waits (file_chunk lua ring name) blocking b
  unfolding add_file add_string
  add_file-add_string acquired waits name blocking b = elim (Bool-cases (is_valid lua b.script)) [
    | inl h ↦ rw h refl
    | inr h ↦ rw h refl
  ]

module _ (lua : Api) (ring : CircularBuffer) (laws : RingLaws ring) where
  open ring use {Buffer, contents}

  blocking_AddEnded :
      (acquired : Bool) (waits : List (Buffer → Buffer)) (str : Bytes) (b : RunBuffer lua ring)
      → is_valid lua b.script ≡ true
      → AddEnded lua ring acquired waits str true b (add_string lua ring acquired waits str true b)
  unfolding add_string
  blocking_AddEnded acquired waits str b valid = go (wait_for_space lua ring waits b.buf) refl
    where
      go :
          (r : Option Buffer)
          → wait_for_space lua ring waits b.buf ≡ r
          → AddEnded lua ring acquired waits str true b
              (add_string lua ring acquired waits str true b)
      go none h =
          rw (valid, h)
            (
              valid,
              refl,
              subst (Waited ring waits b.buf) h (wait_for_space_lem ring waits b.buf lua),
            )
      go (some seen) h =
          let (k, at, space, before) =
            subst (Waited ring waits b.buf) h (wait_for_space_lem ring waits b.buf lua) in
          rw (valid, h)
            (
              valid,
              seen,
              space,
              push_back-space ring laws str seen space,
              refl,
              inr (refl, k, at, before),
            )

  -- An addition ends in one of four ways: still waiting at a full buffer, refused with nothing
  -- changed, or with the chunk behind everything that the buffer held, of which nothing is lost.
  pub add_string_lem :
      (acquired : Bool) (waits : List (Buffer → Buffer)) (str : Bytes) (blocking : Bool)
      (b : RunBuffer lua ring)
      → AddEnded lua ring acquired waits str blocking b
          (add_string lua ring acquired waits str blocking b)
  unfolding add_string
  add_string_lem acquired waits str blocking b = elim (Bool-cases (is_valid lua b.script)) [
    | inr invalid ↦ rw invalid (refl, inl invalid)
    | inl valid ↦ elim (Bool-cases blocking) [
      | inl block ↦ rw block (blocking_AddEnded acquired waits str b valid)
      | inr try ↦ elim (Bool-cases acquired) [
        | inr missed ↦ rw (valid, try, missed) (refl, inr (refl, inl refl))
        | inl locked ↦ elim (Bool-cases (full ring b.buf)) [
          | inl no_space ↦ rw (valid, try, locked, no_space) (refl, inr (refl, inr no_space))
          | inr space ↦
              rw (valid, try, locked, space)
                (
                  valid,
                  b.buf,
                  space,
                  push_back-space ring laws str b.buf space,
                  refl,
                  inl (refl, refl, refl),
                )
        ]
      ]
    ]
  ]
