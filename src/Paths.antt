-- ===== src/Paths.antt =====
-- `LuaPath` of vrjugglua/LuaPath.cpp: where the program finds its files, and the directories in which
-- Lua looks for modules.
pub mod Search
pub mod Require
pub mod Lifetime
use mathlib.Core.Option
use vr_jugglua.Prelude.{
  ℕ, zero, suc, Bool, true, false, not, ◌&&◌, ◌||◌, List, [], ◌∷◌, ◌++◌, Option, none, some, Bytes,
  codes, equal, if◌then◌else◌, length,
}

-- Other projects' code: boost::filesystem on the machine at hand, the first line of a file (none for
-- one that cannot be opened), `trim` and `split` of Boost's string algorithms, the path of the VPR
-- library (empty for none), an environment variable (empty for none), and whether the build is
-- against VR Juggler 2.3 or later.
pub record Machine : Type 1 where
  pub Location : Type 0
  pub path : Bytes → Location
  pub string : Location → Bytes
  pub join : Location → Location → Location
  pub has_branch_path : Location → Bool
  pub branch_path : Location → Location
  pub normalize : Location → Location
  pub complete : Location → Location
  pub remove_leaf : Location → Location
  pub initial_path : Location
  pub exists_path : Location → Bool
  pub first_line : Location → Option Bytes
  pub trim : Bytes → Bytes
  pub split : Bytes → List Bytes
  pub vpr_library : Bytes
  pub getenv : Bytes → Bytes
  pub is_juggler_3 : Bool

abbrev pub is_empty : Bytes → Bool
is_empty [] = true
is_empty (c ∷ cs) = false

-- `std::find`, then `erase` at it; none where nothing is found.
abbrev pub erase_first : Bytes → List Bytes → Option (List Bytes)
erase_first word [] = none
erase_first word (x ∷ xs) =
    let rest = Option.map (◌∷◌ x) (erase_first word xs) in if equal x word then some xs else rest

-- The loop that erases till nothing is found, at most `fuel` rounds of it.
unfoldable pub erase_loop : ℕ → Bytes → List Bytes → List Bytes
erase_loop zero word xs = xs
erase_loop (suc fuel) word xs = elim (erase_first word xs) [
  | none ↦ xs
  | some ys ↦ erase_loop fuel word ys
]

-- A round erases an item, so as many rounds as there are items are enough.
abbrev pub erase_all : Bytes → List Bytes → List Bytes
erase_all word xs = erase_loop (length xs) word xs

module _ (machine : Machine) where
  open machine use {
    Location, path, string, join, has_branch_path, branch_path, normalize, complete, remove_leaf,
    initial_path, exists_path, first_line, trim, split, vpr_library, getenv, is_juggler_3,
  }

  -- The fields of `LuaPath`, with `VJ_BASE_DIR` where it was set.
  pub record LuaPath : Type 0 where
    pub valid : Bool
    pub initial : Bytes
    pub exe_dir : Bytes
    pub root : Bytes
    pub lua_dir : Bytes
    pub share_dir : Bytes
    pub app_root : Bytes
    pub found_juggler : Bool
    pub juggler_root : Bytes
    pub search_paths : List Bytes
    pub vj_base_dir : Option Bytes

  unfoldable pub new_lua_path : LuaPath
  new_lua_path = record {
    valid = false;
    initial = [];
    exe_dir = [];
    root = [];
    lua_dir = [];
    share_dir = [];
    app_root = [];
    found_juggler = false;
    juggler_root = [];
    search_paths = [];
    vj_base_dir = none;
  }

  abbrev pub goes_up : Location → Location → Bool
  goes_up fn location =
      has_branch_path location && exists_path location && not (exists_path (join location fn))

  -- The loop, with `n` rounds left of five.
  unfoldable pub climb : ℕ → Location → Location → Location
  climb zero fn location = location
  climb (suc n) fn location =
      let higher = climb n fn (normalize (branch_path location)) in
      if goes_up fn location then higher else location

  -- `_findFilePath` from one place; none is the `std::runtime_error`.
  unfoldable pub find_file_path_from : Bytes → Bytes → Option Bytes
  unfolding climb
  find_file_path_from starting_at fn =
      let location = climb 5 (path fn) (path starting_at) in
      if exists_path (join location (path fn)) then some (string (normalize location)) else none

  -- From several places: the loop goes on while `location` is empty.
  unfoldable pub find_file_path_in : List Bytes → Bytes → Bytes
  find_file_path_in [] qualified = []
  find_file_path_in (place ∷ places) qualified =
      let rest = find_file_path_in places qualified in
      elim (find_file_path_from place qualified) [
        | none ↦ rest
        | some location ↦ if is_empty location then rest else location
      ]

  abbrev pub juggler_test : Location
  juggler_test =
      if is_juggler_3
      then path (codes "share/vrjuggler-3.0/data/definitions/simulated_positional_device.jdef")
      else path (codes "share/vrjuggler-2.2/data/definitions/simulated_positional_device.jdef")

  abbrev pub juggler_test_fallback : Location
  juggler_test_fallback =
      path (codes "share/vrjuggler/data/definitions/simulated_positional_device.jdef")

  abbrev pub text_or : Bytes → Option Bytes → Bytes
  text_or d none = d
  text_or d (some text) = text

  unfoldable pub find_juggler : Bytes → Bytes
  unfolding find_file_path_from
  find_juggler root =
      if exists_path (join (path root) juggler_test)
        || exists_path (join (path root) juggler_test_fallback)
      then root
      else if is_empty vpr_library
      then getenv (codes "VJ_BASE_DIR")
      else text_or (getenv (codes "VJ_BASE_DIR")) (
          find_file_path_from (string (remove_leaf (complete (path vpr_library))))
            (string juggler_test))

  -- With it, what it returns, where `vpr::System::setenv` succeeds.
  unfoldable pub set_juggler_environment : LuaPath → Bool × LuaPath
  set_juggler_environment p =
      if p.found_juggler
      then (true, record p { vj_base_dir = some p.juggler_root })
      else (not (is_empty p.juggler_root), p)

  -- The line of the file that says where the source tree is, where there is one.
  abbrev pub source_tree : Location → List Bytes
  source_tree indicator =
      if exists_path indicator
      then (elim (first_line indicator) [
        | none ↦ []
        | some line ↦ if is_empty (trim line) then [] else trim line ∷ []
      ])
      else []

  unfoldable pub init : Bytes → Bytes → LuaPath → LuaPath
  unfolding find_file_path_in find_juggler set_juggler_environment
  init arg0 vrjlua_base p =
      let exe = string (remove_leaf (complete (path arg0))) in
      let initial = string initial_path in
      let places = initial ∷ string (complete (path vrjlua_base)) ∷ exe ∷ [] in
      let installed = find_file_path_in places (codes "share/vrjugglua/lua/vrjlua-init.lua") in
      let is_installed = not (is_empty installed) in
      let root =
        if is_installed then installed else find_file_path_in places (codes "vrjlua-init.lua") in
      let lua_dir =
        if is_installed
        then string (join (path root) (path (codes "share/vrjugglua/lua/")))
        else root in
      let more =
        if is_installed
        then places ++ (string (join (path root) (path (codes "share/vrjugglua/"))) ∷ [])
        else places in
      let all =
        more ++ source_tree (join (path lua_dir) (path (codes "vrjlua-sourcetreeloc.lua"))) in
      (set_juggler_environment (record p {
        valid = true;
        initial = initial;
        exe_dir = exe;
        root = root;
        lua_dir = lua_dir;
        share_dir = find_file_path_in all (codes "assets/fonts/droid-fonts/DroidSans.ttf");
        juggler_root = find_juggler root;
      })).1

  -- `LuaPath::instance`, on the one object of the process.
  unfoldable pub instance_lua_path : Bytes → Bytes → LuaPath → LuaPath
  unfolding init
  instance_lua_path arg0 vrjlua_base p = if p.valid then p else init arg0 vrjlua_base p

  unfoldable pub find_file_path : Bytes → LuaPath → Bytes
  unfolding find_file_path_in
  find_file_path fn p = find_file_path_in (p.initial ∷ p.exe_dir ∷ p.root ∷ p.lua_dir ∷ []) fn

  unfoldable pub find_app_root : Bytes → LuaPath → Bool × LuaPath
  unfolding find_file_path
  find_app_root fn p =
      let found = find_file_path fn p in (not (is_empty found), record p { app_root = found })

  unfoldable pub get_path_to_lua_script : Bytes → LuaPath → Bytes
  get_path_to_lua_script scriptfn p = string (join (path p.lua_dir) (path scriptfn))

  -- `input` is `package.path` of the Lua state.
  unfoldable pub populate_search_paths : Bytes → LuaPath → LuaPath
  unfolding erase_loop
  populate_search_paths input p =
      let kept = erase_all (codes "?.lua") (erase_all (codes "?") (split input)) in
      record p { search_paths = (p.lua_dir ++ codes "?") ∷ (p.lua_dir ++ codes "?.lua") ∷ kept }

  abbrev pub path_text : List Bytes → Bytes
  path_text [] = []
  path_text (x ∷ xs) = x ++ (codes ";" ++ path_text xs)

  -- What `_setLuaSearchPaths` stores in `package.path`.
  unfoldable pub lua_search_paths : LuaPath → Bytes
  lua_search_paths p = codes "?;?.lua;" ++ path_text p.search_paths

  abbrev pub has_none : List Bytes → Bool
  has_none [] = true
  has_none (x ∷ xs) = false

  -- With the new `package.path`.
  unfoldable pub update_lua_require_path : Bytes → LuaPath → Bytes × LuaPath
  unfolding populate_search_paths lua_search_paths
  update_lua_require_path input p =
      let q = if has_none p.search_paths then populate_search_paths input p else p in
      (lua_search_paths q, q)

  unfoldable pub add_lua_require_path : Bytes → Bytes → LuaPath → Bytes × LuaPath
  unfolding update_lua_require_path
  add_lua_require_path dir input p =
      update_lua_require_path input
        (record p { search_paths = (dir ++ codes "?") ∷ (dir ++ codes "?.lua") ∷ p.search_paths })
