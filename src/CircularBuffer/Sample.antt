-- ===== src/CircularBuffer/Sample.antt =====
-- A circular buffer as a list that is never longer than its capacity.
use vr_jugglua.Prelude.{
  ℕ, ◌-◌, suc, ◌≤◌, refl, ap, List, [], ◌∷◌, ◌++◌, Bytes, length, drop, arith, length-drop,
  length-append,
}
use vr_jugglua.CircularBuffer.{CircularBuffer, RingLaws}

pub record Bounded : Type 0 where
  pub capacity : ℕ
  pub contents : List Bytes
  pub fits : length contents ≤ capacity

abbrev push_back : Bytes → Bounded → Bounded
push_back x b = record {
  capacity = b.capacity;
  contents = drop (suc (length b.contents) - b.capacity) (b.contents ++ (x ∷ []));
  fits = omega (
    arith,
    length-drop (suc (length b.contents) - b.capacity) (b.contents ++ (x ∷ [])),
    length-append b.contents (x ∷ []),
    b.fits,
  );
}

abbrev pop_front : Bounded → Bounded
pop_front b = record {
  capacity = b.capacity;
  contents = drop 1 b.contents;
  fits = omega (arith, length-drop 1 b.contents, b.fits);
}

abbrev with_capacity : ℕ → Bounded
with_capacity n = record { capacity = n; contents = []; fits = omega arith }

abbrev pub sample : CircularBuffer
sample = record {
  Buffer = Bounded;
  with_capacity = with_capacity;
  capacity = λ b. b.capacity;
  contents = λ b. b.contents;
  push_back = push_back;
  pop_front = pop_front;
  clear = λ b. with_capacity b.capacity;
}

pub sample_laws : RingLaws sample
sample_laws = record {
  contents-with_capacity = λ n. refl;
  capacity-with_capacity = λ n. refl;
  size_le_capacity = λ b. b.fits;
  contents-push_back = λ x b. refl;
  capacity-push_back = λ x b. refl;
  contents-pop_front = λ x xs b h. ap (drop 1) h;
  capacity-pop_front = λ b. refl;
  contents-clear = λ b. refl;
  capacity-clear = λ b. refl;
}
