-- ===== src/Mesh/Groups.antt =====
-- core/Node.go, core/RaftSub.go: the groups of a publication, and what the node has under way for a
-- node of the network.
pub mod Sends
pub mod Bundles
use majula.Prelude.{
  ℕ, ◌+◌, ◌≡◌, refl, sym, ap, ◌∙◌, String, Option, none, some, List, [], ◌∷◌, ◌++◌, Bool, true,
  false, if◌then◌else◌, str_eq, eq_iff, arith, filter_if, Option-cases, inl, inr,
}
use mathlib.Core.List.{append-nil, append_assoc}
use majula.Prelude.Dict.{Dict, lookup, insert, get_or, lookup-insert}
use majula.Mesh.{Message, RouteEntry, Router, Task, channel_send, retry}
use majula.Mesh.Send.{first_route}
use majula.Mesh.Publish.{add_to_group, group_target, group_targets}

unfoldable pub count_of : String → List String → ℕ
count_of t [] = 0
count_of t (x ∷ xs) = let rest = count_of t xs in if str_eq x t then 1 + rest else rest

count_of-append :
    (t : String) (xs ys : List String) → count_of t (xs ++ ys) ≡ count_of t xs + count_of t ys
unfolding count_of
count_of-append t [] ys = omega arith
count_of-append t (x ∷ xs) ys = ground (arith, count_of-append t xs ys)

pub count_of-one : (t x : String) → count_of t (x ∷ []) ≡ (if str_eq x t then 1 else 0)
unfolding count_of
count_of-one t x = ground arith

-- How often a node stands in the groups.
unfoldable pub total : String → Dict (List String) → ℕ
total t [] = 0
total t ((hop, targets) ∷ groups) = count_of t targets + total t groups

total-insert :
    (t hop : String) (new : List String) (groups : Dict (List String))
    → total t (insert hop new groups) + count_of t (get_or [] hop groups)
      ≡ total t groups + count_of t new
unfolding total insert get_or lookup count_of
total-insert t hop new [] = omega arith
total-insert t hop new ((old, targets) ∷ groups) =
    ground (arith, total-insert t hop new groups, eq_iff old hop)

total-add_to_group :
    (t hop target : String) (groups : Dict (List String))
    → total t (add_to_group hop target groups) ≡ (if str_eq target t then 1 else 0) + total t groups
unfolding add_to_group count_of
total-add_to_group t hop target groups = ground (
  arith,
  total-insert t hop (get_or [] hop groups ++ target ∷ []) groups,
  count_of-append t (get_or [] hop groups) (target ∷ []),
  eq_iff target t,
)

-- No group is empty.
unfoldable pub AreFilled : Dict (List String) → Type 0
AreFilled [] = Unit
AreFilled ((hop, []) ∷ groups) = ⊥
AreFilled ((hop, target ∷ targets) ∷ groups) = AreFilled groups

insert-AreFilled :
    (hop first : String) (more : List String) (groups : Dict (List String))
    → AreFilled groups
    → AreFilled (insert hop (first ∷ more) groups)
unfolding AreFilled insert
insert-AreFilled hop first more [] h = tt
insert-AreFilled hop first more ((old, []) ∷ groups) h = absurd h
insert-AreFilled hop first more ((old, target ∷ targets) ∷ groups) h =
    ground (arith, insert-AreFilled hop first more groups h, eq_iff old hop)

add_to_group-AreFilled :
    (hop target : String) (groups : Dict (List String))
    → AreFilled groups
    → AreFilled (add_to_group hop target groups)
unfolding add_to_group
add_to_group-AreFilled hop target groups h =
    elim (get_or [] hop groups) as (λ known. AreFilled (insert hop (known ++ target ∷ []) groups)) [
      | [] ↦ insert-AreFilled hop target [] groups h
      | x ∷ known ↦ insert-AreFilled hop x (known ++ target ∷ []) groups h
    ]

filter_if-cons {ℓ} :
    {A : Type ℓ} (p : A → Bool) (x : A) (xs : List A)
    → filter_if p (x ∷ xs) ≡ filter_if p (x ∷ []) ++ filter_if p xs
filter_if-cons {A = A} p x xs =
    elim (p x)
      as (λ b.
        (elim b [ true ↦ x ∷ filter_if p xs | false ↦ filter_if p xs ])
        ≡ (elim b as (λ _. List A) [ true ↦ x ∷ [] | false ↦ [] ]) ++ filter_if p xs) [
          | true ↦ refl
          | false ↦ refl
        ]

module _ {ℓ} {C : Type ℓ} where
  abbrev is_routable : String → Router C → Bool
  is_routable t r = elim (first_route t r) [ none ↦ false | some route ↦ true ]

  abbrev pub routed_count : Router C → String → List String → ℕ
  routed_count r t targets = if is_routable t r then count_of t targets else 0

  pub total-group_target :
      (r : Router C) (t target : String) (groups : Dict (List String))
      → total t (group_target r target groups)
        ≡ (if str_eq target t then routed_count r t (t ∷ []) else 0) + total t groups
  unfolding group_target count_of
  total-group_target r t target groups = elim (Option-cases (first_route target r)) [
    | inl e ↦ ground (arith, eq_iff target t, eq_iff t t)
    | inr (route, e) ↦ ground (
      arith,
      total-add_to_group t route.next_hop_node_id target groups,
      eq_iff target t,
      eq_iff t t,
    )
  ]

  total-group_targets :
      (r : Router C) (t : String) (targets : List String) (groups : Dict (List String))
      → total t (group_targets r targets groups) ≡ routed_count r t targets + total t groups
  unfolding group_targets count_of
  total-group_targets r t [] groups = ground arith
  total-group_targets r t (x ∷ xs) groups = ground (
    arith,
    total-group_targets r t xs (group_target r x groups),
    total-group_target r t x groups,
    eq_iff x t,
    eq_iff t t,
  )

  pub group_target-AreFilled :
      (r : Router C) (target : String) (groups : Dict (List String))
      → AreFilled groups
      → AreFilled (group_target r target groups)
  unfolding group_target
  group_target-AreFilled r target groups h =
      elim (first_route target r)
        as (λ found. AreFilled (elim found [
          | none ↦ groups
          | some route ↦ add_to_group route.next_hop_node_id target groups
        ])) [
          | none ↦ h
          | some route ↦ add_to_group-AreFilled route.next_hop_node_id target groups h
        ]

  group_targets-AreFilled :
      (r : Router C) (targets : List String) (groups : Dict (List String))
      → AreFilled groups
      → AreFilled (group_targets r targets groups)
  unfolding group_targets
  group_targets-AreFilled r [] groups h = h
  group_targets-AreFilled r (x ∷ xs) groups h =
      group_targets-AreFilled r xs (group_target r x groups) (group_target-AreFilled r x groups h)

  pub total-new_groups :
      (r : Router C) (t : String) (targets : List String)
      → total t (group_targets r targets []) ≡ routed_count r t targets
  unfolding total
  total-new_groups r t targets = omega (arith, total-group_targets r t targets [])

  pub new_groups-AreFilled :
      (r : Router C) (targets : List String) → AreFilled (group_targets r targets [])
  unfolding AreFilled
  new_groups-AreFilled r targets = group_targets-AreFilled r targets [] tt

  -- Whether a node is reached by a next hop.
  abbrev goes_by : Router C → String → String → Bool
  goes_by r hop t = elim (first_route t r) [
    | none ↦ false
    | some route ↦ str_eq route.next_hop_node_id hop
  ]

  get_or-group_target :
      (r : Router C) (hop target : String) (groups : Dict (List String))
      → get_or [] hop (group_target r target groups)
        ≡ get_or [] hop groups ++ filter_if (goes_by r hop) (target ∷ [])
  unfolding group_target add_to_group get_or
  get_or-group_target r hop target groups = elim (Option-cases (first_route target r)) [
    | inl e ↦ ground (arith, append-nil (get_or [] hop groups))
    | inr (route, e) ↦ ground (
      arith,
      append-nil (get_or [] hop groups),
      lookup-insert route.next_hop_node_id hop
          (get_or [] route.next_hop_node_id groups ++ target ∷ []) groups,
      eq_iff route.next_hop_node_id hop,
    )
  ]

  -- The group of a next hop holds, after what it held, the targets that it is the next hop to, in
  -- their order.
  get_or-group_targets :
      (r : Router C) (hop : String) (targets : List String) (groups : Dict (List String))
      → get_or [] hop (group_targets r targets groups)
        ≡ get_or [] hop groups ++ filter_if (goes_by r hop) targets
  unfolding group_targets
  get_or-group_targets r hop [] groups = sym (append-nil (get_or [] hop groups))
  get_or-group_targets r hop (x ∷ xs) groups =
      get_or-group_targets r hop xs (group_target r x groups)
      ∙ ap (λ known. known ++ filter_if (goes_by r hop) xs) (get_or-group_target r hop x groups)
      ∙ append_assoc (get_or [] hop groups) (filter_if (goes_by r hop) (x ∷ []))
          (filter_if (goes_by r hop) xs)
      ∙ ap (λ more. get_or [] hop groups ++ more) (sym (filter_if-cons (goes_by r hop) x xs))
