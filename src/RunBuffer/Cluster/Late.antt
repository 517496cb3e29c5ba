-- ===== src/RunBuffer/Cluster/Late.antt =====
-- What is pushed late in a frame of vrjugglua/LuaRunBuffer.cpp.
use vr_jugglua.Prelude.{
  length, arith, ℕ, zero, suc, ◌≡◌, ◌⊎◌, refl, sym, ap, ◌∙◌, inl, inr, Bool, true, false, ◌||◌,
  List, [], ◌∷◌, ◌++◌, Bytes, take, Bool-cases,
}
use mathlib.Core.List.{append_assoc, append-nil}
use vr_jugglua.Lua.{Api}
use vr_jugglua.CircularBuffer.{CircularBuffer, RingLaws, size, full}
use vr_jugglua.ObjectStream.{ObjectStream}
use vr_jugglua.RunBuffer.{push_all}
use vr_jugglua.RunBuffer.Adding.{push_back-space}
use vr_jugglua.RunBuffer.Cluster.{is_some, Frame, has_late, Part, all_of, sent_of, IsLateOf}

module _ (lua : Api) (ring : CircularBuffer) where
  open ring use {Buffer, contents}

  push_all-full :
      (xs : List Bytes) (buf : Buffer) → full ring buf ≡ true → push_all lua ring xs buf ≡ buf
  unfolding push_all
  push_all-full [] buf h = refl
  push_all-full (x ∷ xs) buf h = rw h (push_all-full xs buf h)

  -- They are pushed from the first on: all of them, or as many as fill the buffer.
  pub push_all-take :
      RingLaws ring
      → (xs : List Bytes) (buf : Buffer)
      → (j : ℕ) × (contents (push_all lua ring xs buf) ≡ contents buf ++ take j xs)
        × ((take j xs ≡ xs) ⊎ (full ring (push_all lua ring xs buf) ≡ true))
  unfolding push_all
  push_all-take laws [] buf = (0, sym (append-nil (contents buf)), inl refl)
  push_all-take laws (x ∷ xs) buf = elim (Bool-cases (full ring buf)) [
    | inl h ↦
        let same = push_all-full xs buf h in
        rw h (0, ap contents same ∙ sym (append-nil (contents buf)), inr (ap (full ring) same ∙ h))
    | inr h ↦
        let (j, laid, enough) = push_all-take laws xs (ring.push_back x buf) in
        rw h (
          suc j,
          laid
              ∙ ap (λ (l : List Bytes). l ++ take j xs) (push_back-space ring laws x buf h)
              ∙ append_assoc (contents buf) (x ∷ []) (take j xs),
          elim enough [ inl all ↦ inl (ap (◌∷◌ x) all) | inr filled ↦ inr filled ],
        )
  ]

  full-capacity : (buf : Buffer) → full ring buf ≡ true → size ring buf ≡ ring.capacity buf
  full-capacity buf h = ground (arith, h)

  pub all_or_filled :
      (buf : Buffer) (late xs sent : List Bytes)
      → contents buf ≡ sent ++ late
      → (late ≡ xs) ⊎ (full ring buf ≡ true)
      → (late ≡ xs) ⊎ (length (sent ++ late) ≡ ring.capacity buf)
  all_or_filled buf late xs sent laid (inl all) = inl all
  all_or_filled buf late xs sent laid (inr filled) =
      inr (sym (ap length laid) ∙ full-capacity buf filled)

  module _ (stream : ObjectStream) where
    taken_late : (j : ℕ) (xs : List Bytes) → (take j xs ≡ []) ⊎ (is_some xs ≡ true)
    taken_late zero xs = inl refl
    taken_late (suc j) [] = inl refl
    taken_late (suc j) (x ∷ xs) = inr refl

    -- Where nothing came late, all that was run was sent.
    pub sent_or_late :
        (capacity : ℕ) (frames : List (Frame lua ring stream)) (parts : List (Part lua ring stream))
        → IsLateOf lua ring stream capacity frames parts
        → (all_of lua ring stream parts ≡ sent_of lua ring stream parts)
          ⊎ (has_late lua ring stream frames ≡ true)
    sent_or_late capacity [] [] h = inl refl
    sent_or_late capacity [] (part ∷ parts) h = absurd h
    sent_or_late capacity (frame ∷ frames) [] h = absurd h
    sent_or_late capacity (frame ∷ frames) (part ∷ parts) ((j, is, _), h) =
        elim (taken_late j frame.late) [
          | inr some_late ↦ inr (rw some_late refl)
          | inl none_late ↦ elim (sent_or_late capacity frames parts h) [
            | inr later ↦ inr (or_true (is_some frame.late) later)
            | inl same ↦ inl (
                ap (λ (l : List Bytes). (part.sent ++ l) ++ all_of lua ring stream parts)
                  (is ∙ none_late)
                ∙ ap (λ (l : List Bytes). l ++ all_of lua ring stream parts) (append-nil part.sent)
                ∙ ap (λ (l : List Bytes). part.sent ++ l) same)
          ]
        ]
      where
        or_true : (a : Bool) {b : Bool} → b ≡ true → (a || b) ≡ true
        or_true true h = refl
        or_true false h = h
