-- ===== src/Reconfiguration.antt =====
-- vrjugglua/Reconfiguration.cpp: configuration elements are removed and the change is carried through.
use vr_jugglua.Prelude.{
  ℕ, zero, suc, ◌+◌, ◌≤◌, ◌<◌, ◌≡◌, refl, inl, inr, List, [], ◌∷◌, Option, none, some, Bytes, arith,
  ltb, Bool-cases, if◌then◌else◌,
}

-- `jccl::ConfigManager`, another project's code: its lock, the removals, and an attempt to carry
-- the pending changes through, which gives the number of those that it processed.
pub record ConfigManager : Type 1 where
  pub Manager : Type 0
  pub lock_active : Manager → Manager
  pub unlock_active : Manager → Manager
  pub remove_active_config : Manager → Manager
  pub remove_active : Bytes → Manager → Manager
  pub attempt_reconfiguration : Manager → ℕ × Manager
  pub pending : Manager → ℕ

module _ (config : ConfigManager) where
  open config use {
    Manager, lock_active, unlock_active, remove_active_config, remove_active,
    attempt_reconfiguration, pending,
  }

  -- The loop, at most `fuel` rounds of it, with the numbers that it prints; none for one that goes on.
  unfoldable pub attempt_all : ℕ → Manager → Option (List ℕ × Manager)
  attempt_all zero m = none
  attempt_all (suc fuel) m =
      let (processed, after) = attempt_reconfiguration m in
      let rest = attempt_all fuel after in
      if ltb 0 processed
      then (elim rest [ none ↦ none | some r ↦ some (processed ∷ r.0, r.1) ])
      else some (processed ∷ [], after)

  -- The loop ends with the round behind the last pending change.
  abbrev pub carry_through : Manager → Option (List ℕ × Manager)
  carry_through m = attempt_all (suc (pending m)) m

  -- The lock is held while the removals are added, and given back at the end of the block.
  unfoldable pub deconfigure_all : Manager → Option (List ℕ × Manager)
  unfolding attempt_all
  deconfigure_all m = carry_through (unlock_active (remove_active_config (lock_active m)))

  unfoldable pub deconfigure_element_by_name : Bytes → Manager → Option (List ℕ × Manager)
  unfolding attempt_all
  deconfigure_element_by_name elem m =
      carry_through (unlock_active (remove_active elem (lock_active m)))

  abbrev pub sum : List ℕ → ℕ
  sum [] = 0
  sum (n ∷ ns) = n + sum ns

  -- Every number but the last is positive, and the last is 0.
  abbrev pub EndsAtZero : List ℕ → Type 0
  EndsAtZero [] = ⊥
  EndsAtZero (n ∷ []) = n ≡ 0
  EndsAtZero (n ∷ k ∷ ns) = (0 < n) × EndsAtZero (k ∷ ns)

  -- A run of the loop over `m`: it ended, and what it processed was pending.
  abbrev pub Settled : Manager → Option (List ℕ × Manager) → Type 0
  Settled m o =
      (printed : List ℕ) × (after : Manager) × (o ≡ some (printed, after))
      × EndsAtZero printed
      × (sum printed + pending after ≤ pending m)

  EndsAtZero-cons : (n : ℕ) (ns : List ℕ) → 0 < n → EndsAtZero ns → EndsAtZero (n ∷ ns)
  EndsAtZero-cons n [] h e = absurd e
  EndsAtZero-cons n (k ∷ ns) h e = (h, e)

  -- What the manager promises: it processes changes that are pending, each once.
  abbrev pub ProcessesPending : Type 0
  ProcessesPending =
      (m : Manager)
      → (attempt_reconfiguration m).0 + pending (attempt_reconfiguration m).1 ≤ pending m

  attempt_all-Settled :
      ProcessesPending
      → (fuel : ℕ) (m : Manager) → pending m < fuel
      → Settled m (attempt_all fuel m)
  unfolding attempt_all
  attempt_all-Settled fair zero m h = absurd (omega arith)
  attempt_all-Settled fair (suc fuel) m h =
      let (processed, after) = attempt_reconfiguration m in
      elim (Bool-cases (ltb 0 processed)) [
        | inr stop ↦
            let zero_left : processed ≡ 0 = ground (arith, stop) in
            rw stop (processed ∷ [], after, refl, zero_left, omega (arith, fair m))
        | inl more ↦
            let positive : 0 < processed = ground (arith, more) in
            let (printed, last, ran, ends, bound) =
              attempt_all-Settled fair fuel after (omega (arith, fair m, positive)) in
            rw (more, ran)
              (
                processed ∷ printed,
                last,
                refl,
                EndsAtZero-cons processed printed positive ends,
                omega (arith, fair m, bound),
              )
      ]

  -- If the manager processes only what is pending, and each change once, both functions return: the
  -- loop makes attempts till one processes nothing, prints their numbers, and together they processed
  -- no more than was pending once the removals had been added and the lock given back.
  pub deconfigure-Settled :
      ProcessesPending
      → (elem : Bytes) (m : Manager)
      → Settled (unlock_active (remove_active_config (lock_active m))) (deconfigure_all m)
        × Settled
            (unlock_active (remove_active elem (lock_active m)))
            (deconfigure_element_by_name elem m)
  unfolding deconfigure_all deconfigure_element_by_name
  deconfigure-Settled fair elem m = (
    attempt_all-Settled fair (suc (pending (unlock_active (remove_active_config (lock_active m)))))
        (unlock_active (remove_active_config (lock_active m))) (omega arith),
    attempt_all-Settled fair (suc (pending (unlock_active (remove_active elem (lock_active m)))))
        (unlock_active (remove_active elem (lock_active m))) (omega arith),
  )
