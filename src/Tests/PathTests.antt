-- ===== src/Tests/PathTests.antt =====
-- Searches and search paths on a small file system.
use vr_jugglua.Prelude.{
  ◌≡◌, refl, false, not, ◌||◌, [], ◌∷◌, ◌++◌, none, Bytes, codes, equal, char_at, ◌==◌, length,
  drop,
}
use vr_jugglua.Paths.{
  LuaPath, Machine, new_lua_path, find_file_path_in, instance_lua_path, update_lua_require_path,
}
use vr_jugglua.Paths.Search.{FirstOf, find_file_path_in-FirstOf}
use vr_jugglua.Paths.Require.{add_dirs, require_path_lem}
use vr_jugglua.Paths.Lifetime.{and_then, no_more, get_instance, update_path, never_set_lem}

-- A path is a text whose first byte is its last step, and a file is named "f"; there is one, in the
-- directory "a".
abbrev machine : Machine
machine = record {
  Location = Bytes;
  path = λ b. b;
  string = λ p. p;
  join = λ p q. q ++ p;
  has_branch_path = λ p. not (length p == 0);
  branch_path = drop 1;
  normalize = λ p. p;
  complete = λ p. p;
  remove_leaf = drop 1;
  initial_path = codes "cba";
  exists_path = λ p. not (char_at p 0 == b'f') || equal p (codes "fa");
  first_line = λ p. none;
  trim = λ b. b;
  split = λ b. codes "?" ∷ b ∷ codes "?.lua" ∷ [];
  vpr_library = [];
  getenv = λ b. [];
  is_juggler_3 = false;
}

find_file_path_in-FirstOf_example :
    FirstOf machine
      (codes "f")
      (codes "zzzz" ∷ codes "cba" ∷ [])
      (find_file_path_in machine (codes "zzzz" ∷ codes "cba" ∷ []) (codes "f"))
find_file_path_in-FirstOf_example =
    find_file_path_in-FirstOf machine (codes "zzzz" ∷ codes "cba" ∷ []) (codes "f")

require_path_lem_example :
    (update_lua_require_path machine (codes "x") (
      add_dirs machine
        ((codes "d/", codes "y") ∷ (codes "e/", codes "y") ∷ [])
        (update_lua_require_path machine (codes "lib/?.lua") (new_lua_path machine)).1)).0
    ≡ codes "?;?.lua;e/?;e/?.lua;d/?;d/?.lua;?;?.lua;lib/?.lua;"
unfolding new_lua_path equal
require_path_lem_example =
    require_path_lem machine (new_lua_path machine) (codes "lib/?.lua") (codes "x")
      ((codes "d/", codes "y") ∷ (codes "e/", codes "y") ∷ []) refl

abbrev started : LuaPath machine
started = instance_lua_path machine (codes "vrjlua") (codes "base") (new_lua_path machine)

never_set_lem_example :
    let q = (update_lua_require_path machine (codes "x") started).1 in
    (q.found_juggler ≡ false) × (q.vj_base_dir ≡ none)
unfolding new_lua_path
never_set_lem_example =
    never_set_lem machine (new_lua_path machine)
      (update_lua_require_path machine (codes "x") started).1
      (and_then (get_instance (codes "vrjlua") (codes "base"))
        (and_then (update_path (codes "x")) no_more))
      refl
