-- ===== src/Prelude/Int.antt =====
-- Signed integers for differences of indices; `negsuc n` is -(n + 1).
use Prim.Native.Nat.{ℕ, ◌-◌}
use mathlib.Core.Path.{◌≡◌}
use mathlib.Core.Bool.{Bool, false}
use native.Mathlib.Omega.{arith}
use vr_jugglua.Prelude.Tests.{leb, ◌==◌, if◌then◌else◌}

pub data ℤ : Type 0 where
  pos : ℕ → ℤ
  negsuc : ℕ → ℤ

-- `a - b`
abbrev pub sub_ℕ : ℕ → ℕ → ℤ
sub_ℕ a b = if leb b a then pos (a - b) else negsuc (b - a - 1)

abbrev pub eqb : ℤ → ℤ → Bool
eqb (pos a) (pos b) = a == b
eqb (pos a) (negsuc b) = false
eqb (negsuc a) (pos b) = false
eqb (negsuc a) (negsuc b) = a == b

-- Differences with the same number are equal only where the first terms are.
pub eqb-sub_ℕ : (a b n : ℕ) → eqb (sub_ℕ a n) (sub_ℕ b n) ≡ (a == b)
eqb-sub_ℕ a b n = ground arith
