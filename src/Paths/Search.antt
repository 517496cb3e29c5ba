-- ===== src/Paths/Search.antt =====
-- Which file the searches of vrjugglua/LuaPath.cpp find.
use vr_jugglua.Prelude.{
  ℕ, zero, suc, ◌≤◌, ◌<◌, ◌≡◌, refl, sym, ap, ◌∙◌, ◌⊎◌, inl, inr, true, false, ◌&&◌, List, [], ◌∷◌,
  Option, none, some, Bytes, Bool-cases, subst, arith,
}
use vr_jugglua.Paths.{Machine, is_empty, goes_up, climb, find_file_path_from, find_file_path_in}

module _ (machine : Machine) where
  open machine use {Location, path, string, join, normalize, branch_path, exists_path}

  -- The directory `k` steps above a place.
  abbrev pub above : ℕ → Location → Location
  above zero location = location
  above (suc k) location = above k (normalize (branch_path location))

  -- The search goes on from each of the first `k` directories: it exists, has a parent, and does not
  -- hold the file.
  abbrev pub GoesUp : ℕ → Location → Location → Type 0
  GoesUp k fn location = (j : ℕ) → j < k → goes_up machine fn (above j location) ≡ true

  -- It ends at the directory `k` steps up, of at most `n`.
  abbrev pub Ends : ℕ → Location → Location → Location → Type 0
  Ends n fn location found =
      (k : ℕ) × (k ≤ n)
      × (found ≡ above k location)
      × GoesUp k fn location
      × ((k ≡ n) ⊎ (goes_up machine fn found ≡ false))

  GoesUp-suc :
      (k : ℕ) (fn location : Location)
      → goes_up machine fn location ≡ true
      → GoesUp k fn (normalize (branch_path location))
      → GoesUp (suc k) fn location
  GoesUp-suc k fn location h later zero lt = h
  GoesUp-suc k fn location h later (suc j) lt = later j (omega arith)

  climb_lem : (n : ℕ) (fn location : Location) → Ends n fn location (climb machine n fn location)
  unfolding climb
  climb_lem zero fn location = (0, omega arith, refl, λ j lt. absurd (omega arith), inl refl)
  climb_lem (suc n) fn location = elim (Bool-cases (goes_up machine fn location)) [
    | inr stop ↦ rw stop (0, omega arith, refl, λ j lt. absurd (omega arith), inr stop)
    | inl up ↦
        let (k, le, at, before, why) = climb_lem n fn (normalize (branch_path location)) in
        rw up (
          suc k,
          omega arith,
          at,
          GoesUp-suc k fn location up before,
          elim why [ inl e ↦ inl (ap suc e) | inr stop ↦ inr stop ],
        )
  ]

  -- What a search from one place gives. It found the file in the nearest of the place and the five
  -- directories above it that holds it, and returns that directory, normalized. Or it found nothing: the
  -- directory at which it stopped does not hold the file, and is the fifth above, or the top, or missing.
  abbrev pub Found : Bytes → Bytes → Option Bytes → Type 0
  Found place fn (some r) =
      (k : ℕ) × (k ≤ 5)
      × (exists_path (join (above k (path place)) (path fn)) ≡ true)
      × (r ≡ string (normalize (above k (path place))))
      × GoesUp k (path fn) (path place)
  Found place fn none =
      (k : ℕ) × (k ≤ 5)
      × (exists_path (join (above k (path place)) (path fn)) ≡ false)
      × GoesUp k (path fn) (path place)
      × ((k ≡ 5)
          ⊎ ((machine.has_branch_path (above k (path place)) && exists_path (above k (path place)))
              ≡ false))

  stopped :
      (fn l : Location)
      → goes_up machine fn l ≡ false
      → exists_path (join l fn) ≡ false
      → (machine.has_branch_path l && exists_path l) ≡ false
  stopped fn l h missing = ground (arith, h, missing)

  pub find_file_path_from-Found :
      (place fn : Bytes) → Found place fn (find_file_path_from machine place fn)
  unfolding find_file_path_from
  find_file_path_from-Found place fn =
      let (k, le, at, before, why) = climb_lem 5 (path fn) (path place) in
      elim (Bool-cases (exists_path (join (climb machine 5 (path fn) (path place)) (path fn)))) [
        | inl here ↦ rw here (
          k,
          le,
          ap (λ (l : Location). exists_path (join l (path fn))) (sym at) ∙ here,
          ap (λ (l : Location). string (normalize l)) at,
          before,
        )
        | inr missing ↦ rw missing (
          k,
          le,
          ap (λ (l : Location). exists_path (join l (path fn))) (sym at) ∙ missing,
          before,
          elim why [
            | inl e ↦ inl e
            | inr stop ↦ inr (
                subst (λ (l : Location). (machine.has_branch_path l && exists_path l) ≡ false) at
                  (stopped (path fn) (climb machine 5 (path fn) (path place)) stop missing))
          ],
        )
      ]

  -- A place gives a directory: the file is found, and the directory's name is not empty.
  abbrev pub Gives : Bytes → Bytes → Bytes → Type 0
  Gives place fn location = Found place fn (some location) × (is_empty location ≡ false)

  -- A search over places: no place before gives a directory, and the first that does is taken; or no
  -- place gives one, and the result is empty.
  pub data FirstOf (fn : Bytes) : List Bytes → Bytes → Type 0 where
    nowhere : FirstOf fn [] []
    here :
        {place location : Bytes} {places : List Bytes}
        → Gives place fn location
        → FirstOf fn (place ∷ places) location
    later :
        {place location : Bytes} {places : List Bytes}
        → Found place fn none ⊎ Found place fn (some [])
        → FirstOf fn places location
        → FirstOf fn (place ∷ places) location

  -- A search over several places returns the directory of the first one from which the file is found, in
  -- the place itself or one of the five directories above it that are reached; and the empty text if
  -- and only if there is no such place.
  pub find_file_path_in-FirstOf :
      (places : List Bytes) (fn : Bytes) → FirstOf fn places (find_file_path_in machine places fn)
  unfolding find_file_path_in
  find_file_path_in-FirstOf [] fn = nowhere
  find_file_path_in-FirstOf (place ∷ places) fn =
      go (find_file_path_from machine place fn) refl (find_file_path_in-FirstOf places fn)
    where
      tried : (r : Option Bytes) → find_file_path_from machine place fn ≡ r → Found place fn r
      tried r e = subst (Found place fn) e (find_file_path_from-Found place fn)

      go :
          (r : Option Bytes)
          → find_file_path_from machine place fn ≡ r
          → FirstOf fn places (find_file_path_in machine places fn)
          → FirstOf fn (place ∷ places) (find_file_path_in machine (place ∷ places) fn)
      go none e rest = rw (find_file_path_in, e) (later (inl (tried none e)) rest)
      go (some []) e rest = rw (find_file_path_in, e) (later (inr (tried (some []) e)) rest)
      go (some (c ∷ cs)) e rest = rw (find_file_path_in, e) (here (tried (some (c ∷ cs)) e, refl))
