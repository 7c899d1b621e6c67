-- ===== src/Mesh/Groups/Bundles.antt =====
-- core/Node.go, core/RaftSub.go: a bundle that a node receives is split by the next hops of its
-- targets.
use majula.Prelude.{
  ℕ, ◌+◌, ◌≡◌, refl, String, List, [], ◌∷◌, true, false, if◌then◌else◌, str_eq, eq_iff, arith,
  Bool-cases, inl, inr, none,
}
use majula.Prelude.Dict.{Dict, get_or}
use majula.Mesh.{Message, Router, start, callback}
use majula.Mesh.Send.{first_route, send_to}
use majula.Mesh.Publish.{
  group_target, start_callbacks, call_subs, call_raft_stub, split_bundle, send_copies,
  forward_bundle, handle_bundle, handle_raft_bundle,
}
use majula.Mesh.Groups.{
  count_of, total, total-group_target, AreFilled, group_target-AreFilled, routed_count,
}
use majula.Mesh.Groups.Sends.{
  under_way, under_way-send_to, under_way-start_callbacks, first_route-start_callbacks,
  same_routes-call_raft_stub,
}

module _ {ℓ} {C : Type ℓ} where
  -- A delivery to the node itself sends nothing and changes no route.
  abbrev IsLocal : (Router C → Router C) → Type ℓ
  IsLocal deliver =
      (t : String) (q : Router C)
      → (under_way t (deliver q).tasks ≡ under_way t q.tasks)
        × (first_route t (deliver q) ≡ first_route t q)
        × ((deliver q).id ≡ q.id)

  abbrev bundled : Router C → String → List String → ℕ
  bundled r t targets = if str_eq t r.id then 0 else routed_count r t targets

  split_bundle-total :
      (deliver : Router C → Router C) (keeps : IsLocal deliver) (t : String) (targets : List String)
      (groups : Dict (List String)) (r : Router C)
      → (total t (split_bundle deliver targets (groups, r)).0
          ≡ bundled r t targets + total t groups)
        × (under_way t (split_bundle deliver targets (groups, r)).1.tasks ≡ under_way t r.tasks)
  unfolding split_bundle count_of
  split_bundle-total deliver keeps t [] groups r = (ground arith, refl)
  split_bundle-total deliver keeps t (x ∷ xs) groups r = elim (Bool-cases (str_eq x r.id)) [
    | inl e ↦ ground (
      arith,
      split_bundle-total deliver keeps t xs groups (deliver r),
      keeps t r,
      eq_iff x t,
      eq_iff x r.id,
      eq_iff t r.id,
    )
    | inr e ↦ ground (
      arith,
      split_bundle-total deliver keeps t xs (group_target r x groups) r,
      total-group_target r t x groups,
      eq_iff x t,
      eq_iff x r.id,
      eq_iff t r.id,
      eq_iff t t,
    )
  ]

  split_bundle-AreFilled :
      (deliver : Router C → Router C) (targets : List String) (groups : Dict (List String))
      (r : Router C)
      → AreFilled groups
      → AreFilled (split_bundle deliver targets (groups, r)).0
  unfolding split_bundle
  split_bundle-AreFilled deliver [] groups r h = h
  split_bundle-AreFilled deliver (x ∷ xs) groups r h =
      elim (str_eq x r.id)
        as (λ own.
          AreFilled
            (elim own as (λ _. Dict (List String) × Router C) [
              | true ↦ split_bundle deliver xs (groups, deliver r)
              | false ↦ split_bundle deliver xs (group_target r x groups, r)
            ]).0) [
              | true ↦ split_bundle-AreFilled deliver xs groups (deliver r) h
              | false ↦
                  split_bundle-AreFilled deliver xs (group_target r x groups) r
                    (group_target-AreFilled r x groups h)
            ]

  under_way-send_copies :
      (t : String) (msg : Message) (groups : Dict (List String)) (r : Router C)
      → AreFilled groups
      → under_way t (send_copies msg groups r).tasks ≡ total t groups + under_way t r.tasks
  unfolding send_copies total AreFilled
  under_way-send_copies t msg [] r h = omega arith
  under_way-send_copies t msg ((hop, []) ∷ groups) r h = absurd h
  under_way-send_copies t msg ((hop, first ∷ more) ∷ groups) r h =
      let copy = record msg { to = ""; route = ""; bundle_to = first ∷ more } in
      omega (
        arith,
        under_way-send_copies t msg groups (send_to hop copy none r) h,
        under_way-send_to t hop copy none r,
      )

  under_way-forward_bundle :
      (deliver : Router C → Router C) (keeps : IsLocal deliver) (t : String) (msg : Message)
      (r : Router C)
      → under_way t (forward_bundle deliver msg r).tasks
        ≡ bundled r t msg.bundle_to + under_way t r.tasks
  unfolding total AreFilled
  under_way-forward_bundle deliver keeps t msg r =
      let split = split_bundle deliver msg.bundle_to ([], r) in
      ground (
        arith,
        split_bundle-total deliver keeps t msg.bundle_to [] r,
        under_way-send_copies t msg split.0 split.1
            (split_bundle-AreFilled deliver msg.bundle_to [] r tt),
      )

  id-start_callbacks :
      (subs : Dict C) (topic from payload : String) (r : Router C)
      → (start_callbacks subs topic from payload r).id ≡ r.id
  unfolding start_callbacks
  id-start_callbacks [] topic from payload r = refl
  id-start_callbacks ((client, cb) ∷ subs) topic from payload r =
      id-start_callbacks subs topic from payload (start (callback cb topic from payload) r)

  call_subs-IsLocal : (topic from payload : String) → IsLocal (call_subs topic from payload)
  unfolding call_subs
  call_subs-IsLocal topic from payload t q =
      let subs = get_or [] topic q.my_subs in
      (
        under_way-start_callbacks t subs topic from payload q,
        first_route-start_callbacks t subs topic from payload q,
        id-start_callbacks subs topic from payload q,
      )

  call_raft_stub-IsLocal :
      (group from payload : String) → IsLocal (call_raft_stub group from payload)
  unfolding call_raft_stub
  call_raft_stub-IsLocal group from payload t q =
      ground (arith, same_routes-call_raft_stub t group from payload q)

  -- A bundle of a topic adds to what is under way to another node as many messages as it names the
  -- node, if there is a route to it, and nothing for the node itself.
  pub under_way-handle_bundle :
      (t : String) (msg : Message) (topic payload : String) (r : Router C)
      → under_way t (handle_bundle msg topic payload r).tasks
        ≡ bundled r t msg.bundle_to + under_way t r.tasks
  unfolding handle_bundle
  under_way-handle_bundle t msg topic payload r =
      under_way-forward_bundle (call_subs topic msg.from payload)
        (call_subs-IsLocal topic msg.from payload) t msg r

  -- A bundle of a Raft group adds to what is under way to another node as many messages as it names
  -- the node, if there is a route to it, and nothing for the node itself.
  under_way-handle_raft_bundle :
      (t : String) (msg : Message) (group payload : String) (r : Router C)
      → under_way t (handle_raft_bundle msg group payload r).tasks
        ≡ bundled r t msg.bundle_to + under_way t r.tasks
  unfolding handle_raft_bundle
  under_way-handle_raft_bundle t msg group payload r =
      under_way-forward_bundle (call_raft_stub group msg.from payload)
        (call_raft_stub-IsLocal group msg.from payload) t msg r
