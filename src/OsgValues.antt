-- ===== src/OsgValues.antt =====
-- The conversions of vrjugglua/osgLuaBind.h between values of OSG in C++ and osgLua's values in Lua: the
-- scores by which luabind chooses an overload, and the two directions of a conversion.
pub mod Converting
use vr_jugglua.Prelude.{
  ℕ, Bool, true, false, not, List, [], ◌∷◌, ◌++◌, Option, none, some, Bytes, codes, if◌then◌else◌,
}
use vr_jugglua.Prelude.Int.{ℤ, pos, negsuc}

-- What an introspective cast gives: a value, or an exception.
pub data Cast {ℓ} (A : Type ℓ) : Type ℓ where
  raised : Cast A
  cast_to : A → Cast A

-- osgLua and its introspection, another project's code: the value under an index of the Lua stack, none
-- where there is no osgLua object; its type and whether two types are the same; a type's name.
pub record OsgLua : Type 1 where
  pub State : Type 0
  pub Value : Type 0
  pub OsgType : Type 0
  pub get : State → ℕ → Option Value
  pub type_of : Value → OsgType
  pub same_type : OsgType → OsgType → Bool
  pub qualified_name : OsgType → Bytes

module _ (osg : OsgLua) where
  open osg use {State, Value, OsgType, get, type_of, same_type, qualified_name}

  -- A value type of OSG: its reflected type, `value_t()`, `variant_cast`, and `osgLua::Value::push`.
  pub record ValueType : Type 1 where
    pub Val : Type 0
    pub reflected : OsgType
    pub default : Val
    pub variant_cast : Value → Cast Val
    pub push : Val → State → State

  -- A type of objects of OSG, by its pointers: NULL is none.
  pub record ObjectType : Type 1 where
    pub Object : Type 0
    pub reflected : OsgType
    pub variant_cast : Value → Cast (Option Object)
    pub requires_conversion : Value → Cast Bool
    pub push : Option Object → State → State

  abbrev pub minus_one : ℤ
  minus_one = negsuc 0

  -- `catch (...)`
  abbrev pub caught : Cast ℤ → ℤ
  caught raised = minus_one
  caught (cast_to n) = n

  -- The shared part of the two scores; `rest` is the score by casting, which may raise.
  unfoldable pub compute_score_for_type : OsgType → (Value → Cast ℤ) → State → ℕ → ℤ
  compute_score_for_type dest rest s index = elim (get s index) [
    | none ↦ minus_one
    | some v ↦ if same_type (type_of v) dest then pos 2 else caught (rest v)
  ]

  module _ (T : ValueType) where
    -- What the cast gives.
    abbrev pub plain_score : Cast T.Val → Cast ℤ
    plain_score raised = cast_to minus_one
    plain_score (cast_to x) = cast_to (pos 0)

    unfoldable pub value_casting_score : Value → Cast ℤ
    value_casting_score v = plain_score (T.variant_cast v)

    unfoldable pub value_score : State → ℕ → ℤ
    unfolding compute_score_for_type value_casting_score
    value_score = compute_score_for_type T.reflected value_casting_score

    unfoldable pub value_from : State → ℕ → Cast T.Val
    value_from s index = elim (get s index) [ none ↦ cast_to T.default | some v ↦ T.variant_cast v ]

    unfoldable pub value_to : T.Val → State → State
    value_to x s = T.push x s

    unfoldable pub value_type_name : Bytes
    value_type_name = codes "[osgLuaBind value] " ++ qualified_name T.reflected

  module _ (T : ObjectType) where
    -- What the cast gives, and whether it needs a conversion.
    abbrev pub pointer_score : Cast (Option T.Object) → Cast Bool → Cast ℤ
    pointer_score raised conversion = raised
    pointer_score (cast_to none) conversion = cast_to minus_one
    pointer_score (cast_to (some x)) raised = raised
    pointer_score (cast_to (some x)) (cast_to true) = cast_to (pos 0)
    pointer_score (cast_to (some x)) (cast_to false) = cast_to (pos 1)

    unfoldable pub object_casting_score : Value → Cast ℤ
    object_casting_score v = pointer_score (T.variant_cast v) (T.requires_conversion v)

    -- `compute_score`, and `match`, which passes it on.
    unfoldable pub object_score : State → ℕ → ℤ
    unfolding compute_score_for_type object_casting_score
    object_score = compute_score_for_type T.reflected object_casting_score

    -- `from`, and the `apply` that passes it on.
    unfoldable pub object_from : State → ℕ → Cast (Option T.Object)
    object_from s index = elim (get s index) [ none ↦ cast_to none | some v ↦ T.variant_cast v ]

    -- `to` of a pointer or an `osg::ref_ptr`, whose pointer is taken, and the `apply` that passes it on.
    unfoldable pub object_to : Option T.Object → State → State
    object_to x s = T.push x s

    unfoldable pub object_type_name : Bytes
    object_type_name = codes "[osgLuaBind object] " ++ qualified_name T.reflected

    unfoldable pub ref_ptr_type_name : Bytes
    ref_ptr_type_name =
        codes "[osgLuaBind object] osg::ref_ptr<" ++ (qualified_name T.reflected ++ codes ">")
