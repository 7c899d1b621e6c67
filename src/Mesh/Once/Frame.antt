-- ===== src/Mesh/Once/Frame.antt =====
-- core/Node.go: only onRecv and the loop that clears them change the keys of the messages received.
use majula.Prelude.{
  ◌≡◌, refl, ◌∙◌, String, Option, none, List, [], ◌∷◌, str_eq, arith, Option-cases, Bool-cases, inl,
  inr,
}
use majula.Prelude.Dict.{Dict, get_or}
use majula.Links.{NodePeer}
use majula.Mesh.{
  Message, MessageType, RouteEntry, Router, Task, start, callback, next_version, broad_cast,
}
use majula.Mesh.Send.{
  first_route, send_to, send_by, lose, retry_turn, broadcast_on, say_hello, heartbeat, send_quit,
  send_quits, send_quit_request, run_task, add_to_retry_queue,
}
use majula.Mesh.Publish.{
  group_target, start_callbacks, call_subs, call_raft_stub, send_group, send_groups,
  publish_on_topic, publish_on_raft_topic, split_bundle, send_copies, handle_bundle,
  handle_raft_bundle, topic_data,
}

module _ {ℓ} {C : Type ℓ} where
  received-send_by :
      (route : RouteEntry) (channel : Option String) (msg : Message) (r : Router C)
      → (send_by route channel msg r).received_msgs ≡ r.received_msgs
  unfolding send_by lose
  received-send_by route channel msg r = ground arith

  pub received-send_to :
      (target : String) (msg : Message) (channel : Option String) (r : Router C)
      → (send_to target msg channel r).received_msgs ≡ r.received_msgs
  unfolding send_to lose
  received-send_to target msg channel r = elim (Option-cases (first_route target r)) [
    | inl e ↦ ground arith
    | inr (route, e) ↦ ground (
      arith,
      received-send_by route channel
          (record msg { version_seq = r.message_version_counter; to = target })
          (record r { message_version_counter = next_version r.message_version_counter }),
    )
  ]

  received-retry_from :
      (queue : List Message) (r : Router C)
      → (elim queue as (λ _. Router C) [
        | [] ↦ r
        | msg ∷ rest ↦ send_to msg.to msg none (record r { retry_queue = rest })
      ]).received_msgs
        ≡ r.received_msgs
  received-retry_from [] r = refl
  received-retry_from (msg ∷ rest) r =
      received-send_to msg.to msg none (record r { retry_queue = rest })

  pub received-retry_turn : (r : Router C) → (retry_turn r).received_msgs ≡ r.received_msgs
  unfolding retry_turn
  received-retry_turn r = received-retry_from r.retry_queue r

  received-broadcast_on :
      (channels : List String) (msg : Message) (r : Router C)
      → (broadcast_on channels msg r).received_msgs ≡ r.received_msgs
  unfolding broadcast_on
  received-broadcast_on [] msg r = refl
  received-broadcast_on (channel ∷ channels) msg r =
      received-broadcast_on channels msg (start (broad_cast channel msg) r)

  pub received-say_hello : (r : Router C) → (say_hello r).received_msgs ≡ r.received_msgs
  unfolding say_hello
  received-say_hello r = received-broadcast_on r.channels _ _

  pub received-heartbeat :
      (links : String) (r : Router C) → (heartbeat links r).received_msgs ≡ r.received_msgs
  unfolding heartbeat
  received-heartbeat links r = received-broadcast_on r.channels _ r

  received-send_quits :
      (peers : Dict NodePeer) (r : Router C) → (send_quits peers r).received_msgs ≡ r.received_msgs
  unfolding send_quits send_quit_request
  received-send_quits [] r = refl
  received-send_quits ((peer, state) ∷ peers) r =
      received-send_quits peers (send_quit_request peer r) ∙ received-send_to peer _ none r

  pub received-send_quit : (r : Router C) → (send_quit r).received_msgs ≡ r.received_msgs
  unfolding send_quit
  received-send_quit r = received-send_quits r.node_peers r

  pub received-run_task :
      (task : Task C) (r : Router C) → (run_task task r).received_msgs ≡ r.received_msgs
  unfolding run_task add_to_retry_queue
  received-run_task task r = ground arith

  received-start_callbacks :
      (subs : Dict C) (topic from payload : String) (r : Router C)
      → (start_callbacks subs topic from payload r).received_msgs ≡ r.received_msgs
  unfolding start_callbacks
  received-start_callbacks [] topic from payload r = refl
  received-start_callbacks ((client, cb) ∷ subs) topic from payload r =
      received-start_callbacks subs topic from payload (start (callback cb topic from payload) r)

  pub received-call_subs :
      (topic from payload : String) (r : Router C)
      → (call_subs topic from payload r).received_msgs ≡ r.received_msgs
  unfolding call_subs
  received-call_subs topic from payload r =
      received-start_callbacks (get_or [] topic r.my_subs) topic from payload r

  pub received-call_raft_stub :
      (group from payload : String) (r : Router C)
      → (call_raft_stub group from payload r).received_msgs ≡ r.received_msgs
  unfolding call_raft_stub
  received-call_raft_stub group from payload r = ground arith

  received-send_group :
      (kind : MessageType) (content hop : String) (targets : List String) (r : Router C)
      → (send_group kind content hop targets r).received_msgs ≡ r.received_msgs
  unfolding send_group
  received-send_group kind content hop [] r = received-send_to hop _ none r
  received-send_group kind content hop (target ∷ []) r = received-send_to target _ none r
  received-send_group kind content hop (first ∷ second ∷ more) r = received-send_to hop _ none r

  received-send_groups :
      (kind : MessageType) (content : String) (groups : Dict (List String)) (r : Router C)
      → (send_groups kind content groups r).received_msgs ≡ r.received_msgs
  unfolding send_groups
  received-send_groups kind content [] r = refl
  received-send_groups kind content ((hop, targets) ∷ groups) r =
      received-send_groups kind content groups (send_group kind content hop targets r)
      ∙ received-send_group kind content hop targets r

  pub received-publish_on_topic :
      (topic payload : String) (r : Router C)
      → (publish_on_topic topic payload r).received_msgs ≡ r.received_msgs
  unfolding publish_on_topic
  received-publish_on_topic topic payload r =
      received-send_groups MessageType.topic_publish (topic_data topic payload) _ _
      ∙ received-call_subs topic r.id payload r

  pub received-publish_on_raft_topic :
      (group payload : String) (r : Router C)
      → (publish_on_raft_topic group payload r).received_msgs ≡ r.received_msgs
  unfolding publish_on_raft_topic
  received-publish_on_raft_topic group payload r =
      received-send_groups MessageType.raft_topic_publish (topic_data group payload) _ _
      ∙ received-call_raft_stub group r.id payload r

  received-split_bundle :
      (deliver : Router C → Router C)
      (keeps : (q : Router C) → (deliver q).received_msgs ≡ q.received_msgs) (targets : List String)
      (groups : Dict (List String)) (r : Router C)
      → (split_bundle deliver targets (groups, r)).1.received_msgs ≡ r.received_msgs
  unfolding split_bundle
  received-split_bundle deliver keeps [] groups r = refl
  received-split_bundle deliver keeps (x ∷ xs) groups r = elim (Bool-cases (str_eq x r.id)) [
    | inl e ↦ ground (arith, received-split_bundle deliver keeps xs groups (deliver r), keeps r)
    | inr e ↦ ground (arith, received-split_bundle deliver keeps xs (group_target r x groups) r)
  ]

  received-send_copies :
      (msg : Message) (groups : Dict (List String)) (r : Router C)
      → (send_copies msg groups r).received_msgs ≡ r.received_msgs
  unfolding send_copies
  received-send_copies msg [] r = refl
  received-send_copies msg ((hop, targets) ∷ groups) r =
      received-send_copies msg groups _ ∙ received-send_to hop _ none r

  pub received-handle_bundle :
      (msg : Message) (topic payload : String) (r : Router C)
      → (handle_bundle msg topic payload r).received_msgs ≡ r.received_msgs
  unfolding handle_bundle
  received-handle_bundle msg topic payload r =
      let deliver = call_subs topic msg.from payload in
      received-send_copies msg _ _
      ∙ received-split_bundle deliver (received-call_subs topic msg.from payload) msg.bundle_to [] r

  pub received-handle_raft_bundle :
      (msg : Message) (group payload : String) (r : Router C)
      → (handle_raft_bundle msg group payload r).received_msgs ≡ r.received_msgs
  unfolding handle_raft_bundle
  received-handle_raft_bundle msg group payload r =
      let deliver = call_raft_stub group msg.from payload in
      received-send_copies msg _ _
      ∙ received-split_bundle deliver (received-call_raft_stub group msg.from payload) msg.bundle_to
          [] r
