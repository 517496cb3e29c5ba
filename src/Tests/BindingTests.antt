-- ===== src/Tests/BindingTests.antt =====
-- Runs of the conversions of OSG's values, of the construction of scripts, and of the devices.
use vr_jugglua.Prelude.{
  ℕ, zero, suc, ◌≡◌, refl, if◌then◌else◌, Bool, true, false, List, [], ◌∷◌, Option, none, some,
  Bytes, codes, ◌==◌, map,
}
use vr_jugglua.Prelude.Int.{pos, negsuc}
use vr_jugglua.Lua.Sample.{State, to_string, sample}
use vr_jugglua.ScriptHost.{Script, Bindings, no_valid_state}
use vr_jugglua.ScriptHost.Construction.{
  Stage, load_osg, Ran, done, threw, new_script, borrow_script, built, not_built,
}
use vr_jugglua.ScriptHost.Construction.Stages.{Constructed, new_script_lem}
use vr_jugglua.OsgValues.{
  OsgLua, ValueType, ObjectType, cast_to, object_from, object_to, object_score, value_from,
  value_to,
}
use vr_jugglua.Gadgets.{
  DigitalState, off, on, toggle_on, toggle_off, pressed, just_changed, just_pressed, just_released,
}
use vr_jugglua.Gadgets.Pressing.{states, presses, releases, changes, digital_lem}
use vr_jugglua.SharedObjects.{iterated, find_vpr_dll}

-- Values that hold a number under a type, 0 for the pointer NULL; the stack is a list, its top under 0.
abbrev osg : OsgLua
osg = record {
  State = List (ℕ × ℕ);
  Value = ℕ × ℕ;
  OsgType = ℕ;
  get = λ s index. elim s [ [] ↦ none | v ∷ rest ↦ if index == 0 then some v else none ];
  type_of = λ v. v.0;
  same_type = λ a b. a == b;
  qualified_name = λ t. codes "osg::Node";
}

abbrev pointer : ℕ → Option ℕ
pointer zero = none
pointer (suc n) = some n

abbrev number : Option ℕ → ℕ
number none = 0
number (some n) = suc n

abbrev node : ObjectType osg
node = record {
  Object = ℕ;
  reflected = 1;
  variant_cast = λ v. cast_to (pointer v.1);
  requires_conversion = λ v. cast_to (v.0 == 2);
  push = λ x s. (1, number x) ∷ s;
}

abbrev vector : ValueType osg
vector = record {
  Val = ℕ;
  reflected = 3;
  default = 0;
  variant_cast = λ v. cast_to v.1;
  push = λ x s. (3, x) ∷ s;
}

-- What is given to Lua comes back.
given_back :
    (object_from osg node (object_to osg node (some 4) ((2, 5) ∷ [])) 0 ≡ cast_to (some 4))
    × (object_from osg node (object_to osg node none ((2, 5) ∷ [])) 0 ≡ cast_to none)
    × (value_from osg vector (value_to osg vector 7 ((2, 5) ∷ [])) 0 ≡ cast_to 7)
unfolding object_from object_to value_from value_to
given_back = (refl, refl, refl)

object_scores :
    (object_score osg node ((1, 0) ∷ []) 0 ≡ pos 2)
    × (object_score osg node ((2, 5) ∷ []) 0 ≡ pos 0)
    × (object_score osg node ((4, 5) ∷ []) 0 ≡ pos 1)
    × (object_score osg node ((4, 0) ∷ []) 0 ≡ negsuc 0)
    × (object_score osg node [] 0 ≡ negsuc 0)
unfolding object_score
object_scores = (refl, refl, refl, refl, refl)

abbrev luabind : Bindings sample
luabind = record {
  cast_string = to_string;
  call_function = λ name args s. (true, s);
  call_error = λ name args s. none;
}

abbrev unbound : Script sample
unbound = record { state = none; has_print_function = false; printed = []; logged = [] }

abbrev fresh : State
fresh = record { stack = []; globals = []; writes = [] }

-- The wrappers of osg are not there.
abbrev run : Stage → State → Ran sample
run load_osg s = done false s
run stage s = done true s

new_script_lem_example :
    Constructed sample run luabind unbound fresh
      (new_script sample run true (some fresh) luabind unbound)
    × ((result : Script sample) × (text : Bytes) × (new_script sample run true none luabind unbound
          ≡ built (text ∷ []) result)
        × (result.state ≡ none))
    × ((result : Script sample) × (new_script sample run false (some fresh) luabind unbound
          ≡ built [] result)
        × (result.state ≡ none))
    × ((text : Bytes) × (borrow_script sample run none true luabind unbound
          ≡ not_built (text ∷ []) (threw [] no_valid_state none)))
new_script_lem_example = new_script_lem sample run luabind fresh unbound

abbrev update : Bool → Bool → DigitalState
update false false = off
update false true = toggle_on
update true true = on
update true false = toggle_off

digital_lem_example :
    let frames = true ∷ true ∷ false ∷ [] in
    (map (λ s. pressed s s) (states update false frames) ≡ frames)
    × (map (λ s. just_changed s s) (states update false frames) ≡ changes update false frames)
    × (map just_pressed (states update false frames) ≡ presses update false frames)
    × (map just_released (states update false frames) ≡ releases update false frames)
digital_lem_example =
    digital_lem update
      (record { stays_off = refl; goes_on = refl; stays_on = refl; goes_off = refl }) false
      (true ∷ true ∷ false ∷ [])

find_vpr :
    find_vpr_dll true (iterated (codes "libc.so" ∷ codes "libvpr-2.2.so" ∷ []))
    ≡ codes "libvpr-2.2.so"
unfolding find_vpr_dll
find_vpr = refl
