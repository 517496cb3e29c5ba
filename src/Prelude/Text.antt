-- ===== src/Prelude/Text.antt =====
-- C strings and `std::string` as lists of bytes. A string holds no NUL byte, and a read at its
-- end gives the terminator 0.
use Prim.Native.Nat.{ℕ, zero, suc}
use Prim.Native.Char.{code}
use Prim.Native.String.{String}
use mathlib.Core.Path.{◌≡◌}
use mathlib.Core.Logic.{◌↔◌}
use mathlib.Core.Bool.{Bool, true, false, ◌&&◌}
use mathlib.Core.List.{List, [], ◌∷◌}
use native.Mathlib.Omega.{arith}
use Prim.Native.Nat.{compare, Ordering}

abbrev pub Bytes : Type 0
Bytes = List ℕ

-- The bytes of an ASCII literal.
abbrev pub codes : String → Bytes
codes String.[] = []
codes (String.◌∷◌ c s) = code c ∷ codes s

-- `s[i]`, at most one past the last byte.
abbrev pub char_at : Bytes → ℕ → ℕ
char_at [] i = 0
char_at (c ∷ cs) zero = c
char_at (c ∷ cs) (suc i) = char_at cs i

-- `strcmp(a, b) == 0`
unfoldable pub equal : Bytes → Bytes → Bool
equal [] [] = true
equal [] (d ∷ b) = false
equal (c ∷ a) [] = false
equal (c ∷ a) (d ∷ b) = elim (compare c d) [ Ordering.eq ↦ true | _ ↦ false ] && equal a b

pub equal_iff : (a b : Bytes) → (equal a b ≡ true) ↔ (a ≡ b)
unfolding equal
equal_iff (c ∷ a) (d ∷ b) = ground (arith, equal_iff a b)
equal_iff _ _ = ground arith
