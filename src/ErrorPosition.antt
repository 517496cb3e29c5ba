-- ===== src/ErrorPosition.antt =====
-- `add_file_and_line` of vrjugglua/VRJLua_C_Interface.cpp, which luabind calls for an error in a
-- protected call.
pub mod Reading
use vr_jugglua.Prelude.{
  ℕ, ◌≡◌, refl, ap, ◌∙◌, List, [], ◌∷◌, ◌++◌, Option, none, some, Bytes, codes,
}
use vr_jugglua.Lua.{Api, Laws, top, first}

-- `lua_Debug` as `lua_getinfo` fills it, with the line as it is printed.
pub record DebugInfo : Type 0 where
  pub short_src : Bytes
  pub current_line : Bytes
  pub name : Option Bytes
  pub name_what : Bytes

abbrev pub position : DebugInfo → Bytes
position d =
    d.short_src
    ++ (codes ":"
        ++ (d.current_line ++ (elim d.name [
          | none ↦ []
          | some name ↦ codes "(" ++ (d.name_what ++ (codes " " ++ (name ++ codes ")")))
        ])))

module _ (lua : Api) where
  open lua use {State, Value, to_string, string, stack, push, pop}

  -- The number of results, the state, and what goes to the standard error; none is a string made of NULL,
  -- for an error value that is neither a string nor a number.
  unfoldable pub add_file_and_line :
      DebugInfo → State → List Bytes → Option (ℕ × (State × List Bytes))
  add_file_and_line d s stderr = elim (to_string (top lua s)) [
    | none ↦ none
    | some err ↦
        let msg = position d ++ (codes " " ++ err) in
        some
          (1, (push (string msg) (pop 1 s), stderr ++ ((codes "\n" ++ (msg ++ codes "\n")) ∷ [])))
  ]
