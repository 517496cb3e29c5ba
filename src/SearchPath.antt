-- ===== src/SearchPath.antt =====
-- The functions of the module vrjLua of vrjugglua/binding_detail/BindvrjLuaToLua.inl that add
-- directories to the search paths for models and for Lua modules.
use vr_jugglua.Prelude.{
  ◌≡◌, refl, sym, ap, ◌∙◌, inl, inr, Bool, false, List, [], ◌∷◌, ◌++◌, Option, none, some, Bytes,
  codes, if◌then◌else◌, Bool-cases,
}
use mathlib.Core.List.{append-nil}
use vr_jugglua.Paths.{Machine, LuaPath, add_lua_require_path, is_empty}

-- osgDB, another project's code.
pub record OsgDb : Type 0 where
  pub file_exists : Bytes → Bool
  pub get_real_path : Bytes → Bytes
  pub convert_file_name_to_unix_style : Bytes → Bytes
  pub is_regular_file : Bytes → Bool
  pub get_file_path : Bytes → Bytes

module _ (machine : Machine) (osg : OsgDb) where
  open osg use {
    file_exists, get_real_path, convert_file_name_to_unix_style, is_regular_file, get_file_path,
  }

  -- The list of data directories of osgDB, the `LuaPath` object, and `package.path`.
  pub record Search : Type 0 where
    pub data_files : List Bytes
    pub lua_path : LuaPath machine
    pub package_path : Bytes

  -- `p` of both functions: the directory of a file or directory that exists, or the path itself.
  unfoldable pub directory_of : Bytes → Bytes
  directory_of path =
      let p = convert_file_name_to_unix_style (get_real_path path) in
      if file_exists path then (if is_regular_file p then get_file_path p else p) else path

  unfoldable pub append_to_model_search_path : Bytes → Search → Search
  unfolding directory_of
  append_to_model_search_path path s = record s {
    data_files = s.data_files ++ (directory_of path ∷ []);
  }

  -- The slash that is put behind `p` changes nothing, since `path` is passed on; none is the read in
  -- front of an empty `p`.
  unfoldable pub append_to_lua_require_path : Bytes → Search → Option Search
  unfolding directory_of
  append_to_lua_require_path path s =
      let (text, q) = add_lua_require_path machine path s.package_path s.lua_path in
      if is_empty (directory_of path)
      then none
      else some (record s { lua_path = q; package_path = text })

  abbrev pub add_unless_empty : Bytes → Search → Search
  add_unless_empty dir s = if is_empty dir then s else append_to_model_search_path dir s

  -- The end of `BindvrjLuaToLua`: the directories that are known are added.
  unfoldable pub add_known_directories : Search → Option Search
  unfolding append_to_model_search_path append_to_lua_require_path
  add_known_directories s =
      let root = s.lua_path.root in
      let shared = add_unless_empty s.lua_path.share_dir s in
      if is_empty root
      then some shared
      else append_to_lua_require_path (root ++ codes "/etc/vrjugglua/")
          (append_to_model_search_path root shared)

  -- The data directories that are added.
  abbrev pub known : Bytes → List Bytes
  known dir = if is_empty dir then [] else directory_of dir ∷ []

  add_unless_empty_lem :
      (dir : Bytes) (s : Search)
      → ((add_unless_empty dir s).data_files ≡ s.data_files ++ known dir)
        × ((add_unless_empty dir s).lua_path ≡ s.lua_path)
        × ((add_unless_empty dir s).package_path ≡ s.package_path)
  unfolding append_to_model_search_path
  add_unless_empty_lem [] s = (sym (append-nil s.data_files), refl, refl)
  add_unless_empty_lem (c ∷ cs) s = (refl, refl, refl)

  -- With a root directory whose configuration directory has a name, binding adds the share and the root
  -- directory, where they are known, behind the data directories, and the configuration directory as it
  -- is spelled to the search path of Lua; with none it adds the share directory alone.
  pub known_directories_lem :
      (s : Search)
      → is_empty (directory_of (s.lua_path.root ++ codes "/etc/vrjugglua/")) ≡ false
      → (q : Search) × (add_known_directories s ≡ some q)
        × (q.data_files ≡ (s.data_files ++ known s.lua_path.share_dir) ++ known s.lua_path.root)
        × (q.package_path ≡ (
            if is_empty s.lua_path.root
            then s.package_path
            else (add_lua_require_path machine
                (s.lua_path.root ++ codes "/etc/vrjugglua/")
                s.package_path
                s.lua_path).0))
  unfolding add_known_directories append_to_lua_require_path append_to_model_search_path
  known_directories_lem s named =
      let (files, path, text) = add_unless_empty_lem s.lua_path.share_dir s in
      elim (Bool-cases (is_empty s.lua_path.root)) [
        | inl unknown ↦ simp unknown (_, refl, files ∙ sym (append-nil _), text)
        | inr found ↦
            simp (found, named, path, text)
              (
                _,
                refl,
                ap (λ (xs : List Bytes). xs ++ (directory_of s.lua_path.root ∷ [])) files,
                refl,
              )
      ]
