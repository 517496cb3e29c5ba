-- ===== src/Paths/Lifetime.antt =====
-- The one `LuaPath` object of a process of vrjugglua/LuaPath.cpp, over all the calls that change it.
use vr_jugglua.Prelude.{
  ◌≡◌, refl, sym, ap, ◌∙◌, true, false, List, [], ◌∷◌, Bytes, Bool-cases, inl, inr, subst, ◌++◌,
  codes, arith,
}
use vr_jugglua.Paths.{
  Machine, LuaPath, init, set_juggler_environment, instance_lua_path, find_app_root,
  populate_search_paths, update_lua_require_path, add_lua_require_path, has_none,
}

-- The calls on the object, each on the machine as it is then.
pub data Step (machine : Machine) : LuaPath machine → LuaPath machine → Type 0 where
  get_instance :
      (arg0 vrjlua_base : Bytes) {p : LuaPath machine}
      → Step machine p (instance_lua_path machine arg0 vrjlua_base p)
  seek_app_root : (fn : Bytes) {p : LuaPath machine} → Step machine p (find_app_root machine fn p).1
  update_path :
      (input : Bytes) {p : LuaPath machine}
      → Step machine p (update_lua_require_path machine input p).1
  add_path :
      (dir input : Bytes) {p : LuaPath machine}
      → Step machine p (add_lua_require_path machine dir input p).1

pub data Steps (machine : Machine) : LuaPath machine → LuaPath machine → Type 0 where
  no_more : {p : LuaPath machine} → Steps machine p p
  and_then : {p q r : LuaPath machine} → Step machine p q → Steps machine q r → Steps machine p r

module _ (machine : Machine) where
  -- The directories that an object has found.
  abbrev pub directories : LuaPath machine → List Bytes
  directories p = p.initial ∷ p.exe_dir ∷ p.root ∷ p.lua_dir ∷ p.share_dir ∷ p.juggler_root ∷ []

  -- What no call changes: VJ_BASE_DIR, while Juggler is not marked as found, which no call does; and
  -- the directories, once they have been looked for.
  abbrev pub Keeps : LuaPath machine → LuaPath machine → Type 0
  Keeps p q =
      ((p.found_juggler ≡ false) → (q.found_juggler ≡ false) × (q.vj_base_dir ≡ p.vj_base_dir))
      × ((p.valid ≡ true) → (q.valid ≡ true) × (directories q ≡ directories p))

  Keeps-refl : (p : LuaPath machine) → Keeps p p
  Keeps-refl p = (λ h. (h, refl), λ h. (h, refl))

  set_juggler_environment-unset :
      (p : LuaPath machine) → p.found_juggler ≡ false → (set_juggler_environment machine p).1 ≡ p
  unfolding set_juggler_environment
  set_juggler_environment-unset p h = simp h refl

  init-unset :
      (arg0 vrjlua_base : Bytes) (p : LuaPath machine)
      → p.found_juggler ≡ false
      → let q = init machine arg0 vrjlua_base p in
        (q.found_juggler ≡ false) × (q.vj_base_dir ≡ p.vj_base_dir)
  unfolding init
  init-unset arg0 vrjlua_base p h =
      let same = set_juggler_environment-unset _ h in
      (
        ap (λ (q : LuaPath machine). q.found_juggler) same ∙ h,
        ap (λ (q : LuaPath machine). q.vj_base_dir) same,
      )

  instance-valid :
      (arg0 vrjlua_base : Bytes) (p : LuaPath machine)
      → p.valid ≡ true
      → instance_lua_path machine arg0 vrjlua_base p ≡ p
  unfolding instance_lua_path
  instance-valid arg0 vrjlua_base p h = simp h refl

  instance-fresh :
      (arg0 vrjlua_base : Bytes) (p : LuaPath machine)
      → p.valid ≡ false
      → instance_lua_path machine arg0 vrjlua_base p ≡ init machine arg0 vrjlua_base p
  unfolding instance_lua_path
  instance-fresh arg0 vrjlua_base p h = simp h refl

  get_instance-Keeps :
      (arg0 vrjlua_base : Bytes) (p : LuaPath machine)
      → Keeps p (instance_lua_path machine arg0 vrjlua_base p)
  get_instance-Keeps arg0 vrjlua_base p = elim (Bool-cases p.valid) [
    | inl valid ↦ subst (Keeps p) (sym (instance-valid arg0 vrjlua_base p valid)) (Keeps-refl p)
    | inr fresh ↦
        subst (Keeps p) (sym (instance-fresh arg0 vrjlua_base p fresh))
          (init-unset arg0 vrjlua_base p, λ valid. absurd (ground (arith, fresh, valid)))
  ]

  update-Keeps :
      (input : Bytes) (p : LuaPath machine) → Keeps p (update_lua_require_path machine input p).1
  unfolding update_lua_require_path populate_search_paths
  update-Keeps input p = elim (Bool-cases (has_none machine p.search_paths)) [
    | inl fresh ↦ simp fresh (λ h. (h, refl), λ h. (h, refl))
    | inr filled ↦ simp filled (Keeps-refl p)
  ]

  Step-Keeps : (p q : LuaPath machine) → Step machine p q → Keeps p q
  unfolding find_app_root add_lua_require_path
  Step-Keeps p _ (get_instance arg0 vrjlua_base) = get_instance-Keeps arg0 vrjlua_base p
  Step-Keeps p _ (seek_app_root fn) = (λ h. (h, refl), λ h. (h, refl))
  Step-Keeps p _ (update_path input) = update-Keeps input p
  Step-Keeps p _ (add_path dir input) =
      update-Keeps input
        (record p { search_paths = (dir ++ codes "?") ∷ (dir ++ codes "?.lua") ∷ p.search_paths })

  Steps-Keeps : (p q : LuaPath machine) → Steps machine p q → Keeps p q
  Steps-Keeps p _ no_more = Keeps-refl p
  Steps-Keeps p r (and_then {q = q} first rest) =
      let (unset, fixed) = Step-Keeps p q first in
      let (unset', fixed') = Steps-Keeps q r rest in
      (
        λ h.
            let (still, same) = unset h in
            let (still', same') = unset' still in (still', same' ∙ same),
        λ h.
            let (still, same) = fixed h in
            let (still', same') = fixed' still in (still', same' ∙ same),
      )

  -- From an object on which Juggler is not marked as found, as a new one is, no calls lead to one on
  -- which it is, and none sets VJ_BASE_DIR.
  pub never_set_lem :
      (p q : LuaPath machine)
      → Steps machine p q
      → p.found_juggler ≡ false
      → (q.found_juggler ≡ false) × (q.vj_base_dir ≡ p.vj_base_dir)
  never_set_lem p q steps = (Steps-Keeps p q steps).0

  -- Once the directories have been looked for, no call changes them, whatever paths it passes.
  pub directories_lem :
      (p q : LuaPath machine)
      → Steps machine p q
      → p.valid ≡ true
      → (q.valid ≡ true) × (directories q ≡ directories p)
  directories_lem p q steps = (Steps-Keeps p q steps).1
