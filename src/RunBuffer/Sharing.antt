-- ===== src/RunBuffer/Sharing.antt =====
-- `writeObject` and `readObject` of vrjugglua/LuaRunBuffer.cpp: how a cluster's nodes share the chunks.
use vr_jugglua.Prelude.{
  ℕ, ◌+◌, ◌-◌, ◌<◌, ◌≡◌, ◌↔◌, refl, sym, ap, ◌∙◌, true, List, [], ◌∷◌, ◌++◌, Bytes, map, arith,
  length, length-append, length-drop, drop, drop-drop, drop-append_le,
}
use mathlib.Core.List.{append_assoc, append-nil}
use vr_jugglua.Lua.{Api}
use vr_jugglua.CircularBuffer.{CircularBuffer, RingLaws, size}
use vr_jugglua.ObjectStream.{ObjectStream, StreamLaws, Item, uint32, text}
use vr_jugglua.RunBuffer.{RunBuffer, write_strings, write_object, read_strings, read_object}

-- The last `n` of a list, or all of it.
abbrev pub keep_last : ℕ → List Bytes → List Bytes
keep_last n xs = drop (length xs - n) xs

keep_last-again :
    (n : ℕ) (xs ys : List Bytes) → keep_last n (keep_last n xs ++ ys) ≡ keep_last n (xs ++ ys)
keep_last-again n xs ys =
    let a = length xs - n in
    let same : drop a xs ++ ys ≡ drop a (xs ++ ys) = sym (drop-append_le a xs ys (omega arith)) in
    let shift : a + (length (drop a xs ++ ys) - n) ≡ length (xs ++ ys) - n =
      omega (arith, length-append (drop a xs) ys, length-drop a xs, length-append xs ys) in
    ap (drop (length (drop a xs ++ ys) - n)) same
    ∙ drop-drop (length (drop a xs ++ ys) - n) a (xs ++ ys)
    ∙ ap (λ (k : ℕ). drop k (xs ++ ys)) shift

module _ (lua : Api) (ring : CircularBuffer) (stream : ObjectStream) (sl : StreamLaws stream) where
  open stream use {Writer, Reader, written, left}

  written-write_strings :
      (xs : List Bytes) (w : Writer)
      → written (write_strings lua ring stream xs w) ≡ written w ++ map text xs
  unfolding write_strings
  written-write_strings [] w = sym (append-nil (written w))
  written-write_strings (x ∷ xs) w =
      written-write_strings xs (stream.write_string x w)
      ∙ ap (λ (is : List Item). is ++ map text xs) (sl.written-write_string x w)
      ∙ append_assoc (written w) (text x ∷ []) (map text xs)

  -- What a read of as many strings leaves in a buffer, and in the stream.
  read_strings_lem :
      RingLaws ring
      → (xs : List Bytes) (buf : ring.Buffer) (r : Reader) (rest : List Item)
      → left r ≡ map text xs ++ rest
      → let (buf', r') = read_strings lua ring stream (length xs) buf r in
        (ring.contents buf' ≡ keep_last (ring.capacity buf) (ring.contents buf ++ xs))
        × (left r' ≡ rest)
  unfolding read_strings
  read_strings_lem rl [] buf r rest h = (
    sym (
        ap (keep_last (ring.capacity buf)) (append-nil (ring.contents buf))
        ∙ ap (λ (n : ℕ). drop n (ring.contents buf)) {y = 0}
            (omega (arith, rl.size_le_capacity buf))),
    h,
  )
  read_strings_lem rl (x ∷ xs) buf r rest h =
      let (got, further) = sl.left-read_string x r (map text xs ++ rest) h in
      let (laid, ended) =
        read_strings_lem rl xs (ring.push_back x buf) (stream.read_string r).1 rest further in
      let cap = ring.capacity buf in
      let pushed : ring.contents (ring.push_back x buf)
          ≡ keep_last cap (ring.contents buf ++ (x ∷ [])) =
        rl.contents-push_back x buf
        ∙ ap (λ (n : ℕ). drop n (ring.contents buf ++ (x ∷ [])))
            (omega (arith, length-append (ring.contents buf) (x ∷ []))) in
      rw (read_strings, got)
        (
          laid
              ∙ ap (λ (n : ℕ). keep_last n (ring.contents (ring.push_back x buf) ++ xs))
                  (rl.capacity-push_back x buf)
              ∙ ap (λ (zs : List Bytes). keep_last cap (zs ++ xs)) pushed
              ∙ keep_last-again cap (ring.contents buf ++ (x ∷ [])) xs
              ∙ ap (keep_last cap) (append_assoc (ring.contents buf) (x ∷ []) xs),
          ended,
        )

  -- What a node reads when it is given what another has written: the sender's chunks in order, but
  -- only the last ones where its own capacity is smaller. It warns if and only if it could not keep them
  -- all. Both nodes then keep the number of chunks sent in `max_run`, which no run reads.
  pub read_object-write_object :
      RingLaws ring
      → (sender receiver : RunBuffer lua ring) (w : Writer) (r : Reader) (rest : List Item)
      → size ring sender.buf < 4294967296
      → written w ≡ []
      → let (w', sent) = write_object lua ring stream sender w in
        let ((warned, b), r') = read_object lua ring stream receiver r in
        (left r ≡ written w' ++ rest)
        → (ring.contents b.buf ≡ keep_last (ring.capacity receiver.buf) (ring.contents sender.buf))
          × ((warned ≡ true) ↔ (ring.capacity receiver.buf < size ring sender.buf))
          × (b.max_run ≡ size ring sender.buf)
          × (sent.max_run ≡ size ring sender.buf)
          × (left r' ≡ rest)
  unfolding read_object write_object
  read_object-write_object rl sender receiver w r rest fits fresh h =
      let xs = ring.contents sender.buf in
      let n = size ring sender.buf in
      let sent : left r ≡ uint32 n ∷ (map text xs ++ rest) =
        h
        ∙ ap (λ (is : List Item). is ++ rest)
            (written-write_strings xs (stream.write_uint32 n w)
              ∙ ap (λ (is : List Item). is ++ map text xs)
                  (sl.written-write_uint32 n w fits
                    ∙ ap (λ (is : List Item). is ++ (uint32 n ∷ [])) fresh)) in
      let (count, further) = sl.left-read_uint32 n r (map text xs ++ rest) sent in
      let (laid, ended) =
        read_strings_lem rl xs (ring.clear receiver.buf) (stream.read_uint32 r).1 rest further in
      let kept : ring.contents
            (read_strings lua ring stream n (ring.clear receiver.buf) (stream.read_uint32 r).1).0
          ≡ keep_last (ring.capacity receiver.buf) xs =
        laid
        ∙ ap (λ (c : ℕ). keep_last c (ring.contents (ring.clear receiver.buf) ++ xs))
            (rl.capacity-clear receiver.buf)
        ∙ ap (λ (zs : List Bytes). keep_last (ring.capacity receiver.buf) (zs ++ xs))
            (rl.contents-clear receiver.buf) in
      rw count (
        kept,
        ground (arith, ap length kept, length-drop (n - ring.capacity receiver.buf) xs),
        refl,
        refl,
        ended,
      )
