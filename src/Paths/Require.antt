-- ===== src/Paths/Require.antt =====
-- `package.path` as vrjugglua/LuaPath.cpp leaves it.
use mathlib.Core.Option
use vr_jugglua.Prelude.{
  ℕ, zero, suc, ◌≤◌, ◌≡◌, refl, sym, ap, ◌∙◌, inl, inr, true, false, List, [], ◌∷◌, ◌++◌, Option,
  none, some, Bytes, codes, equal, if◌then◌else◌, Bool-cases, subst, length, arith,
}
use vr_jugglua.Paths.{
  Machine, erase_first, erase_loop, erase_all, LuaPath, populate_search_paths, path_text,
  lua_search_paths, has_none, update_lua_require_path, add_lua_require_path,
}

-- All the items but those equal to a word, in order.
abbrev pub without : Bytes → List Bytes → List Bytes
without word [] = []
without word (x ∷ xs) = if equal x word then without word xs else x ∷ without word xs

-- What a round does to the list: nothing is found in a list without the word, or one item goes.
abbrev Erased : Bytes → List Bytes → Option (List Bytes) → Type 0
Erased word xs none = without word xs ≡ xs
Erased word xs (some ys) = (suc (length ys) ≡ length xs) × (without word ys ≡ without word xs)

Erased-keep :
    (word x : Bytes) (xs : List Bytes) (r : Option (List Bytes))
    → equal x word ≡ false
    → Erased word xs r
    → Erased word (x ∷ xs) (Option.map (◌∷◌ x) r)
Erased-keep word x xs none other e = rw other (ap (◌∷◌ x) e)
Erased-keep word x xs (some ys) other (shorter, same) =
    rw (without, other) (omega (arith, shorter), ap (◌∷◌ x) same)

erase_first-Erased : (word : Bytes) (xs : List Bytes) → Erased word xs (erase_first word xs)
erase_first-Erased word [] = refl
erase_first-Erased word (x ∷ xs) = elim (Bool-cases (equal x word)) [
  | inl same ↦ rw (Erased, erase_first, same) (refl, rw (without, same) refl)
  | inr other ↦
      rw (erase_first, other)
        (Erased-keep word x xs (erase_first word xs) other (erase_first-Erased word xs))
]

-- As many rounds as there are items are enough: the loop erases every one that is the word.
erase_loop_lem :
    (fuel : ℕ) (word : Bytes) (xs : List Bytes)
    → length xs ≤ fuel
    → erase_loop fuel word xs ≡ without word xs
unfolding erase_loop
erase_loop_lem zero word [] h = refl
erase_loop_lem zero word (x ∷ xs) h = absurd (omega arith)
erase_loop_lem (suc fuel) word xs h = go (erase_first word xs) refl (erase_loop_lem fuel word)
  where
    go :
        (r : Option (List Bytes))
        → erase_first word xs ≡ r
        → ((ys : List Bytes) → length ys ≤ fuel → erase_loop fuel word ys ≡ without word ys)
        → erase_loop (suc fuel) word xs ≡ without word xs
    go none e later =
        rw (erase_loop, e) (sym (subst (Erased word xs) e (erase_first-Erased word xs)))
    go (some ys) e later =
        let (shorter, same) = subst (Erased word xs) e (erase_first-Erased word xs) in
        rw (erase_loop, e) (later ys (omega (arith, shorter)) ∙ same)

module _ (machine : Machine) where
  -- The directories that were added, the newest first, each with its two patterns.
  abbrev pub patterns : List Bytes → List Bytes
  patterns [] = []
  patterns (dir ∷ dirs) = (dir ++ codes "?") ∷ (dir ++ codes "?.lua") ∷ patterns dirs

  -- Directories are added in order; `inputs` gives `package.path` before each addition.
  abbrev pub add_dirs : List (Bytes × Bytes) → LuaPath machine → LuaPath machine
  add_dirs [] p = p
  add_dirs ((dir, input) ∷ dirs) p = add_dirs dirs (add_lua_require_path machine dir input p).1

  abbrev pub added_last_first : List (Bytes × Bytes) → List Bytes → List Bytes
  added_last_first [] below = below
  added_last_first ((dir, input) ∷ dirs) below = added_last_first dirs (dir ∷ below)

  populated :
      (input : Bytes) (p : LuaPath machine)
      → (populate_search_paths machine input p).search_paths
        ≡ patterns (p.lua_dir ∷ [])
          ++ without (codes "?.lua") (without (codes "?") (machine.split input))
  unfolding populate_search_paths
  populated input p =
      let items = machine.split input in
      ap (λ (xs : List Bytes). (p.lua_dir ++ codes "?") ∷ (p.lua_dir ++ codes "?.lua") ∷ xs)
        (erase_loop_lem _ (codes "?.lua") (erase_all (codes "?") items) (omega arith)
          ∙ ap (without (codes "?.lua")) (erase_loop_lem _ (codes "?") items (omega arith)))

  added :
      (dirs : List (Bytes × Bytes)) (p : LuaPath machine) (below : List Bytes) (rest : List Bytes)
      → p.search_paths ≡ patterns below ++ rest
      → (add_dirs dirs p).search_paths ≡ patterns (added_last_first dirs below) ++ rest
  unfolding add_lua_require_path
  added [] p below rest h = h
  added ((dir, input) ∷ dirs) p below rest h =
      added dirs (add_lua_require_path machine dir input p).1 (dir ∷ below) rest
        (ap (λ (xs : List Bytes). (dir ++ codes "?") ∷ (dir ++ codes "?.lua") ∷ xs) h)

  not_empty :
      (dirs : List (Bytes × Bytes)) (dir : Bytes) (below rest : List Bytes)
      → has_none machine (patterns (added_last_first dirs (dir ∷ below)) ++ rest) ≡ false
  not_empty [] dir below rest = refl
  not_empty ((d, input) ∷ dirs) dir below rest = not_empty dirs d (dir ∷ below) rest

  update_fresh :
      (input : Bytes) (p : LuaPath machine)
      → p.search_paths ≡ []
      → (update_lua_require_path machine input p).1 ≡ populate_search_paths machine input p
  unfolding update_lua_require_path
  update_fresh input p h =
      let fresh : has_none machine p.search_paths ≡ true = ap (has_none machine) h in
      simp fresh refl

  update_filled :
      (input : Bytes) (p : LuaPath machine)
      → has_none machine p.search_paths ≡ false
      → (update_lua_require_path machine input p).0
        ≡ codes "?;?.lua;" ++ path_text machine p.search_paths
  unfolding update_lua_require_path lua_search_paths
  update_filled input p h = simp h refl

  -- On an object that has no search paths yet, an update followed by any additions and another update
  -- sets `package.path` to: the two patterns of the working directory; those of the directories added,
  -- the last first; those of the Lua directory; and what the first `package.path` had besides the
  -- former two, in its order. What `package.path` holds later on is not looked at.
  pub require_path_lem :
      (p : LuaPath machine) (first last : Bytes) (dirs : List (Bytes × Bytes))
      → p.search_paths ≡ []
      → (update_lua_require_path machine last
          (add_dirs dirs (update_lua_require_path machine first p).1)).0
        ≡ codes "?;?.lua;"
          ++ path_text machine (
              patterns (added_last_first dirs (p.lua_dir ∷ []))
              ++ without (codes "?.lua") (without (codes "?") (machine.split first)))
  require_path_lem p first last dirs h =
      let rest = without (codes "?.lua") (without (codes "?") (machine.split first)) in
      let begun = (update_lua_require_path machine first p).1 in
      let filled = added dirs begun (p.lua_dir ∷ []) rest (
        ap (λ (q : LuaPath machine). q.search_paths) (update_fresh first p h)
        ∙ populated first p) in
      update_filled last (add_dirs dirs begun)
        (ap (has_none machine) filled ∙ not_empty dirs p.lua_dir [] rest)
      ∙ ap (λ (xs : List Bytes). codes "?;?.lua;" ++ path_text machine xs) filled
