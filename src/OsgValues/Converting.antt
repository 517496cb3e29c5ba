-- ===== src/OsgValues/Converting.antt =====
-- Which values the conversions of vrjugglua/osgLuaBind.h take, and what their scores promise.
use vr_jugglua.Prelude.{◌≡◌, ◌⊎◌, true, Option, some}
use vr_jugglua.Prelude.Int.{ℤ, pos, negsuc}
use vr_jugglua.OsgValues.{Cast, cast_to, OsgLua, ValueType, ObjectType}

module _ (osg : OsgLua) where
  open osg use {State, Value, get, type_of, same_type}

  -- A value of the very type is cast to it.
  abbrev pub CastsOwnObject : ObjectType osg → Type 0
  CastsOwnObject T =
      (v : Value)
      → same_type (type_of v) T.reflected ≡ true
      → (x : Option T.Object) × (T.variant_cast v ≡ cast_to x)

  abbrev pub CastsOwnValue : ValueType osg → Type 0
  CastsOwnValue T =
      (v : Value)
      → same_type (type_of v) T.reflected ≡ true
      → (x : T.Val) × (T.variant_cast v ≡ cast_to x)

  -- A score goes with what the conversion gives: -1; an object, by a conversion or as a subtype; or
  -- whatever pointer, of the exact type.
  abbrev pub Scored : {A : Type 0} → ℤ → Cast (Option A) → Type 0
  Scored {A} score result =
      (score ≡ negsuc 0)
      ⊎ (((score ≡ pos 0) ⊎ (score ≡ pos 1)) × (x : A) × (result ≡ cast_to (some x)))
      ⊎ ((score ≡ pos 2) × (x : Option A) × (result ≡ cast_to x))

  -- A value type has no subtypes.
  abbrev pub ScoredValue : {A : Type 0} → ℤ → Cast A → Type 0
  ScoredValue {A} score result =
      (score ≡ negsuc 0) ⊎ (((score ≡ pos 0) ⊎ (score ≡ pos 2)) × (x : A) × (result ≡ cast_to x))
