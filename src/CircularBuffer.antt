-- ===== src/CircularBuffer.antt =====
-- `boost::circular_buffer<std::string>`, as the buffer of vrjugglua/LuaRunBuffer.cpp uses it. Boost is
-- another project's code: the calls are fields, and what its manual documents of them is `RingLaws`.
pub mod Sample
use vr_jugglua.Prelude.{ℕ, ◌-◌, suc, ◌≤◌, ◌≡◌, Bool, List, [], ◌∷◌, ◌++◌, Bytes, length, drop, ◌==◌}

pub record CircularBuffer : Type 1 where
  pub Buffer : Type 0
  -- `_buf(capacity)`, and the elements, the front first.
  pub with_capacity : ℕ → Buffer
  pub capacity : Buffer → ℕ
  pub contents : Buffer → List Bytes
  pub push_back : Bytes → Buffer → Buffer
  pub pop_front : Buffer → Buffer
  pub clear : Buffer → Buffer

module _ (ring : CircularBuffer) where
  open ring use {Buffer, with_capacity, capacity, contents, push_back, pop_front, clear}

  abbrev pub size : Buffer → ℕ
  size b = length (contents b)

  abbrev pub full : Buffer → Bool
  full b = size b == capacity b

  -- A push onto a full buffer drops the element at its front.
  pub record RingLaws : Type 0 where
    pub contents-with_capacity : (n : ℕ) → contents (with_capacity n) ≡ []
    pub capacity-with_capacity : (n : ℕ) → capacity (with_capacity n) ≡ n
    pub size_le_capacity : (b : Buffer) → size b ≤ capacity b
    pub contents-push_back :
        (x : Bytes) (b : Buffer)
        → contents (push_back x b) ≡ drop (suc (size b) - capacity b) (contents b ++ (x ∷ []))
    pub capacity-push_back : (x : Bytes) (b : Buffer) → capacity (push_back x b) ≡ capacity b
    pub contents-pop_front :
        (x : Bytes) (xs : List Bytes) (b : Buffer)
        → contents b ≡ x ∷ xs
        → contents (pop_front b) ≡ xs
    pub capacity-pop_front : (b : Buffer) → capacity (pop_front b) ≡ capacity b
    pub contents-clear : (b : Buffer) → contents (clear b) ≡ []
    pub capacity-clear : (b : Buffer) → capacity (clear b) ≡ capacity b
