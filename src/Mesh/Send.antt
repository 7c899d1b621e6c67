-- ===== src/Mesh/Send.antt =====
-- core/Node.go: sendTo, the retry queue, and the messages that a node sends of its own accord.
use majula.Prelude.{String, Option, none, some, List, [], ◌∷◌, ◌++◌, true, if◌then◌else◌}
use majula.Prelude.Dict.{Dict, lookup, delete}
use majula.Prelude.Int.{pos}
use majula.Links.{NodePeer}
use majula.Node.{mem}
use majula.Mesh.{
  Message, MessageType, own_message, RouteEntry, Router, Task, start, retry, channel_send,
  broad_cast, next_version,
}

abbrev or_else : String → Option String → String
or_else d none = d
or_else d (some s) = s

module _ {ℓ} {C : Type ℓ} where
  unfoldable pub lose : Message → Router C → Router C
  lose msg r = start (retry (record msg { lost = true })) r

  -- The part of sendTo for a target with a route.
  unfoldable pub send_by : RouteEntry → Option String → Message → Router C → Router C
  send_by route channel msg r =
      let used = or_else route.local_channel_id channel in
      let routed = record msg { route = route.next_hop_node_id } in
      if mem used r.channels
      then start (channel_send used route.next_hop_node_id routed) r
      else lose routed r

  abbrev count_message : Router C → Router C
  count_message r = record r { message_version_counter = next_version r.message_version_counter }

  abbrev pub stamp : String → Message → Router C → Message
  stamp target msg r = record msg { version_seq = r.message_version_counter; to = target }

  -- routes[0], where there is one.
  unfoldable pub first_route : String → Router C → Option RouteEntry
  first_route target r = elim (lookup target r.routing_table) [
    | none ↦ none
    | some routes ↦ elim routes [ [] ↦ none | route ∷ more ↦ some route ]
  ]

  -- The last argument but one is the channel that the caller may choose.
  unfoldable pub send_to : String → Message → Option String → Router C → Router C
  send_to target msg channel r = elim (first_route target r) [
    | none ↦ lose (stamp target msg r) (count_message r)
    | some route ↦ send_by route channel (stamp target msg r) (count_message r)
  ]

  unfoldable pub add_to_retry_queue : Message → Router C → Router C
  add_to_retry_queue msg r = record r { retry_queue = r.retry_queue ++ msg ∷ [] }

  -- One turn of startRetryLoop.
  unfoldable pub retry_turn : Router C → Router C
  retry_turn r = elim r.retry_queue [
    | [] ↦ r
    | msg ∷ queue ↦ send_to msg.to msg none (record r { retry_queue = queue })
  ]

  unfoldable pub broadcast_on : List String → Message → Router C → Router C
  broadcast_on [] msg r = r
  broadcast_on (channel ∷ channels) msg r =
      broadcast_on channels msg (start (broad_cast channel msg) r)

  unfoldable pub say_hello : Router C → Router C
  say_hello r =
      let msg = own_message MessageType.hello r.id r.id (pos 1) in
      broadcast_on r.channels (record msg { version_seq = r.message_version_counter })
        (count_message r)

  -- A tick of the loop; `links` is the serialized link set.
  unfoldable pub heartbeat : String → Router C → Router C
  heartbeat links r =
      broadcast_on r.channels (own_message MessageType.heart_beat links r.id (pos 1)) r

  unfoldable pub send_quit_request : String → Router C → Router C
  send_quit_request peer r =
      send_to peer
        (record (own_message MessageType.quit peer r.id (pos 1)) { to = peer; route = peer }) none r

  unfoldable pub send_quits : Dict NodePeer → Router C → Router C
  send_quits [] r = r
  send_quits ((peer, state) ∷ peers) r = send_quits peers (send_quit_request peer r)

  unfoldable pub send_quit : Router C → Router C
  send_quit r = send_quits r.node_peers r

  -- The goroutines that touch the fields modelled here. The others run in other components.
  unfoldable pub run_task : Task C → Router C → Router C
  run_task (retry msg) r = add_to_retry_queue msg r
  run_task (Task.delete_peer peer) r = record r { node_peers = delete peer r.node_peers }
  run_task _ r = r
