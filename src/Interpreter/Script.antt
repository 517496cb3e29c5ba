-- ===== src/Interpreter/Script.antt =====
-- `getargs` and `handle_script` of src/lua.c: the script, its arguments and the table `arg`.
pub mod Arguments
pub mod Outcome
use vr_jugglua.Prelude.{
  ℕ, ◌+◌, ◌-◌, Bool, true, false, not, ◌&&◌, List, [], ◌∷◌, Option, none, some, Bytes, codes, ◌==◌,
  if◌then◌else◌, length, drop, get_or, equal,
}
use vr_jugglua.Prelude.Int.{sub_ℕ}
use vr_jugglua.Lua.{Api, gettop}
use vr_jugglua.Interpreter.{Process, report, docall, with_state}

-- The file to load, none for the standard input: `-` not behind `--`.
unfoldable pub script_file : List Bytes → ℕ → Option Bytes
script_file argv n =
    let fname = get_or argv n [] in
    if equal fname (codes "-") && not (equal (get_or argv (n - 1) []) (codes "--"))
    then none
    else some fname

module _ (lua : Api) where
  open lua use {
    State, string, push, pop, insert, setglobal, createtable, rawseti, checkstack, loadfile,
  }

  -- The loop that pushes the script's arguments.
  unfoldable pub push_all : List Bytes → State → State
  push_all [] s = s
  push_all (a ∷ rest) s = push_all rest (push (string a) s)

  -- The loop that stores `argv[i]` under `i - n`, from index `i` on.
  unfoldable pub store_all : ℕ → ℕ → List Bytes → State → State
  store_all n i [] s = s
  store_all n i (a ∷ rest) s = store_all n (i + 1) rest (rawseti (sub_ℕ i n) (push (string a) s))

  -- `luaL_checkstack` is taken to succeed: where the stack cannot grow it raises an error that leaves `pmain`,
  -- which is `raised` in `main`.
  unfoldable pub getargs : List Bytes → ℕ → State → ℕ × State
  unfolding push_all store_all
  getargs argv n s =
      let narg = length argv - (n + 1) in
      let pushed = push_all (drop (n + 1) argv) (checkstack (narg + 3) s) in
      (narg, store_all n 0 argv (createtable narg (n + 1) pushed))

  unfoldable pub handle_script : List Bytes → ℕ → Process lua → ℕ × Process lua
  handle_script argv n p =
      let (narg, with_table) = getargs argv n p.state in
      let with_arg = setglobal (codes "arg") with_table in
      let (status, loaded) = loadfile (script_file argv n) with_arg in
      let under = insert (gettop lua loaded - narg) loaded in
      let (called, q) = docall lua narg false (with_state lua under p) in
      if status == 0
      then report lua called q
      else report lua status (with_state lua (pop narg under) p)
