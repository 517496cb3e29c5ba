-- ===== src/Kernel/Roles.antt =====
-- The role in a cluster that vrjugglua/binding_detail/BindKernelToLua.inl remembers.
use vr_jugglua.Prelude.{ℕ, ◌≡◌, refl, ap, ◌∙◌, Bool, true, false, ◌||◌, List, [], ◌∷◌, arith}
use vr_jugglua.Kernel.{
  KernelState, init_with, init_as_single_machine, init_as_cluster_primary_node,
  init_as_cluster_secondary_node,
}

pub data Role : Type 0 where
  single primary : Role
  secondary : ℕ → Role

abbrev pub init_as : Bool → Role → KernelState → KernelState
init_as three single = init_as_single_machine three
init_as three primary = init_as_cluster_primary_node three
init_as three (secondary port) = init_as_cluster_secondary_node three port

abbrev pub init_as_all : Bool → List Role → KernelState → KernelState
init_as_all three [] s = s
init_as_all three (r ∷ rs) s = init_as_all three rs (init_as three r s)

abbrev pub in_cluster : Role → Bool
in_cluster single = false
in_cluster _ = true

abbrev pub is_primary : Role → Bool
is_primary primary = true
is_primary _ = false

abbrev pub last_role : Role → List Role → Role
last_role r [] = r
last_role r (q ∷ qs) = last_role q qs

abbrev pub any_in_cluster : List Role → Bool
any_in_cluster [] = false
any_in_cluster (r ∷ rs) = in_cluster r || any_in_cluster rs

one_three :
    (r : Role) (s : KernelState)
    → let t = init_as true r s in
      (t.is_cluster ≡ s.is_cluster || in_cluster r)
      × (t.is_primary ≡ is_primary r)
      × (t.initialised ≡ true)
unfolding init_as_single_machine init_as_cluster_primary_node init_as_cluster_secondary_node
    init_with
one_three single s = (refl, refl, refl)
one_three primary s = (refl, refl, refl)
one_three (secondary port) s = (refl, refl, refl)

one_two :
    (r : Role) (s : KernelState)
    → let t = init_as false r s in
      (t.is_cluster ≡ in_cluster r) × (t.is_primary ≡ is_primary r) × (t.initialised ≡ true)
unfolding init_as_single_machine init_as_cluster_primary_node init_as_cluster_secondary_node
one_two single s = (refl, refl, refl)
one_two primary s = (refl, refl, refl)
one_two (secondary port) s = (refl, refl, refl)

-- After one or more choices of a role the kernel counts as initialised, and as the primary node just
-- where the last choice was that. With VR Juggler 2.2 it counts as part of a cluster where the last
-- choice was a node of one; with VR Juggler 3, where any choice was, or it did before.
pub roles_lem :
    (r : Role) (rs : List Role) (s : KernelState)
    → (let two = init_as_all false (r ∷ rs) s in
        (two.is_cluster ≡ in_cluster (last_role r rs))
        × (two.is_primary ≡ is_primary (last_role r rs))
        × (two.initialised ≡ true))
      × (let three = init_as_all true (r ∷ rs) s in
          (three.is_cluster ≡ s.is_cluster || any_in_cluster (r ∷ rs))
          × (three.is_primary ≡ is_primary (last_role r rs))
          × (three.initialised ≡ true))
roles_lem r rs s = (two_lem r rs s, three_lem r rs s)
  where
    two_lem :
        (q : Role) (qs : List Role) (t : KernelState)
        → let two = init_as_all false (q ∷ qs) t in
          (two.is_cluster ≡ in_cluster (last_role q qs))
          × (two.is_primary ≡ is_primary (last_role q qs))
          × (two.initialised ≡ true)
    two_lem q [] t = one_two q t
    two_lem q (p ∷ ps) t = two_lem p ps (init_as false q t)

    three_lem :
        (q : Role) (qs : List Role) (t : KernelState)
        → let three = init_as_all true (q ∷ qs) t in
          (three.is_cluster ≡ t.is_cluster || any_in_cluster (q ∷ qs))
          × (three.is_primary ≡ is_primary (last_role q qs))
          × (three.initialised ≡ true)
    three_lem q [] t =
        let (cluster, first, on) = one_three q t in (cluster ∙ ground arith, first, on)
    three_lem q (p ∷ ps) t =
        let (cluster, _, _) = one_three q t in
        let (all, first, on) = three_lem p ps (init_as true q t) in
        (all ∙ ap (λ (b : Bool). b || any_in_cluster (p ∷ ps)) cluster ∙ ground arith, first, on)
