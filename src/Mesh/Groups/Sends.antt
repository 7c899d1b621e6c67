-- ===== src/Mesh/Groups/Sends.antt =====
-- core/Node.go, core/RaftSub.go: what a publication and a bundle put under way. A message is under
-- way to a node as long as its channel or the retry queue has yet to take it.
use majula.Prelude.{
  ℕ, ◌+◌, ◌≡◌, refl, ◌∙◌, sym, ap, String, Option, none, List, [], ◌∷◌, if◌then◌else◌, str_eq,
  eq_iff, arith, Option-cases, Bool-cases, inl, inr,
}
use majula.Prelude.Dict.{Dict, get_or}
use majula.Node.{mem}
use majula.Mesh.{
  Message, MessageType, Router, Task, channel_send, retry, callback, start, RouteEntry,
  next_version,
}
use majula.Mesh.Send.{first_route, send_to, send_by, lose}
use majula.Mesh.Publish.{
  group_targets, call_subs, start_callbacks, call_raft_stub, send_group, send_groups,
  publish_on_topic, publish_on_raft_topic, other_nodes, topic_data,
}
use majula.Mesh.Groups.{
  count_of, count_of-one, total, AreFilled, total-new_groups, new_groups-AreFilled, routed_count,
}

abbrev addressed_to : String → List String → String → ℕ
addressed_to to [] t = if str_eq to t then 1 else 0
addressed_to to (first ∷ more) t = count_of t (first ∷ more)

-- How often a message is addressed to a node: by its bundle, where it has one.
abbrev pub addressed : Message → String → ℕ
addressed msg t = addressed_to msg.to msg.bundle_to t

count_of-other_nodes :
    (t id : String) (nodes : List String)
    → count_of t (other_nodes id nodes) ≡ (if str_eq t id then 0 else count_of t nodes)
unfolding count_of other_nodes
count_of-other_nodes t id [] = ground arith
count_of-other_nodes t id (node ∷ nodes) =
    ground (arith, count_of-other_nodes t id nodes, eq_iff t id, eq_iff node id, eq_iff node t)

module _ {ℓ} {C : Type ℓ} where
  abbrev pub carries : Task C → String → ℕ
  carries (channel_send channel hop msg) t = addressed msg t
  carries (retry msg) t = addressed msg t
  carries _ t = 0

  unfoldable pub under_way : String → List (Task C) → ℕ
  under_way t [] = 0
  under_way t (task ∷ tasks) = carries task t + under_way t tasks

  under_way-send_by :
      (t : String) (route : RouteEntry) (channel : Option String) (msg : Message) (r : Router C)
      → under_way t (send_by route channel msg r).tasks ≡ addressed msg t + under_way t r.tasks
  unfolding send_by lose under_way
  under_way-send_by t route channel msg r = ground arith

  pub under_way-send_to :
      (t target : String) (msg : Message) (channel : Option String) (r : Router C)
      → under_way t (send_to target msg channel r).tasks
        ≡ addressed_to target msg.bundle_to t + under_way t r.tasks
  unfolding send_to under_way lose
  under_way-send_to t target msg channel r = elim (Option-cases (first_route target r)) [
    | inl e ↦ ground arith
    | inr (route, e) ↦ ground (
      arith,
      under_way-send_by t route channel
          (record msg { version_seq = r.message_version_counter; to = target })
          (record r { message_version_counter = next_version r.message_version_counter }),
    )
  ]

  under_way-send_group :
      (t hop : String) (kind : MessageType) (content : String) (first : String) (more : List String)
      (r : Router C)
      → under_way t (send_group kind content hop (first ∷ more) r).tasks
        ≡ count_of t (first ∷ more) + under_way t r.tasks
  unfolding send_group
  under_way-send_group t hop kind content first [] r =
      under_way-send_to t first _ none r
      ∙ ap (λ n. n + under_way t r.tasks) (sym (count_of-one t first))
  under_way-send_group t hop kind content first (second ∷ more) r = under_way-send_to t hop _ none r

  under_way-send_groups :
      (t : String) (kind : MessageType) (content : String) (groups : Dict (List String))
      (r : Router C)
      → AreFilled groups
      → under_way t (send_groups kind content groups r).tasks ≡ total t groups + under_way t r.tasks
  unfolding send_groups total AreFilled
  under_way-send_groups t kind content [] r h = omega arith
  under_way-send_groups t kind content ((hop, []) ∷ groups) r h = absurd h
  under_way-send_groups t kind content ((hop, first ∷ more) ∷ groups) r h = omega (
    arith,
    under_way-send_groups t kind content groups (send_group kind content hop (first ∷ more) r) h,
    under_way-send_group t hop kind content first more r,
  )

  pub under_way-start_callbacks :
      (t : String) (subs : Dict C) (topic from payload : String) (r : Router C)
      → under_way t (start_callbacks subs topic from payload r).tasks ≡ under_way t r.tasks
  unfolding start_callbacks under_way
  under_way-start_callbacks t [] topic from payload r = refl
  under_way-start_callbacks t ((client, cb) ∷ subs) topic from payload r = omega (
    arith,
    under_way-start_callbacks t subs topic from payload (start (callback cb topic from payload) r),
  )

  pub first_route-start_callbacks :
      (t : String) (subs : Dict C) (topic from payload : String) (r : Router C)
      → first_route t (start_callbacks subs topic from payload r) ≡ first_route t r
  unfolding start_callbacks first_route
  first_route-start_callbacks t [] topic from payload r = refl
  first_route-start_callbacks t ((client, cb) ∷ subs) topic from payload r =
      first_route-start_callbacks t subs topic from payload
        (start (callback cb topic from payload) r)

  -- A publication adds to what is under way to a node as many messages as the node is entered for
  -- the topic, if there is a route to it, and none otherwise.
  pub under_way-publish_on_topic :
      (t topic payload : String) (r : Router C)
      → under_way t (publish_on_topic topic payload r).tasks
        ≡ routed_count r t (get_or [] topic r.total_subs) + under_way t r.tasks
  unfolding publish_on_topic call_subs
  under_way-publish_on_topic t topic payload r =
      let called = start_callbacks (get_or [] topic r.my_subs) topic r.id payload r in
      let groups = group_targets called (get_or [] topic r.total_subs) [] in
      ground (
        arith,
        under_way-send_groups t MessageType.topic_publish (topic_data topic payload) groups called
            (new_groups-AreFilled called (get_or [] topic r.total_subs)),
        total-new_groups called t (get_or [] topic r.total_subs),
        under_way-start_callbacks t (get_or [] topic r.my_subs) topic r.id payload r,
        first_route-start_callbacks t (get_or [] topic r.my_subs) topic r.id payload r,
      )

  pub same_routes-call_raft_stub :
      (t group from payload : String) (r : Router C)
      → (first_route t (call_raft_stub group from payload r) ≡ first_route t r)
        × (under_way t (call_raft_stub group from payload r).tasks ≡ under_way t r.tasks)
  unfolding call_raft_stub first_route under_way
  same_routes-call_raft_stub t group from payload r = elim (Bool-cases (mem group r.raft_stubs)) [
    | inl e ↦ (rw e refl, ground arith)
    | inr e ↦ (rw e refl, ground arith)
  ]

  -- Where a member of a Raft group publishes to it, what is under way to another node grows by the
  -- number of times that it is entered for the group, if there is a route to it, and what is under
  -- way to the node itself stays.
  under_way-publish_on_raft_topic :
      (t group payload : String) (r : Router C)
      → under_way t (publish_on_raft_topic group payload r).tasks
        ≡ (if str_eq t r.id then 0 else routed_count r t (get_or [] group r.raft_peers))
          + under_way t r.tasks
  unfolding publish_on_raft_topic
  under_way-publish_on_raft_topic t group payload r =
      let called = call_raft_stub group r.id payload r in
      let targets = other_nodes r.id (get_or [] group r.raft_peers) in
      ground (
        arith,
        under_way-send_groups t MessageType.raft_topic_publish (topic_data group payload)
            (group_targets called targets []) called (new_groups-AreFilled called targets),
        total-new_groups called t targets,
        same_routes-call_raft_stub t group r.id payload r,
        count_of-other_nodes t r.id (get_or [] group r.raft_peers),
      )
