-- ===== src/Mesh/Receive.antt =====
-- core/Node.go: onRecv, with the keys by which it knows a message again.
use Prim.Native.String.{◌++◌ as text_append}
use majula.Prelude.{
  ℕ, zero, suc, ◌/◌, ◌%◌, String, Option, none, some, List, [], ◌∷◌, if◌then◌else◌, str_eq, ltb,
  get_elem?,
}
use majula.Prelude.Dict.{lookup, insert}
use majula.Prelude.Int.{pos, leb_ℤ}
use majula.Links.{NodeStatus}
use majula.Node.{mem, is_empty}
use majula.Mesh.{
  Message, MessageType, iota, is_frp, dec16, Router, start, Handler, handle, bundle, raft_bundle,
  delete_peer, on_raft_message, Stub, private_message, channel_send,
}
use majula.Mesh.Send.{first_route, lose}
use majula.Mesh.Topic.{parse_topic_message}
use majula.Mesh.Publish.{call_subs, call_raft_stub}

abbrev digits : List String
digits = "0" ∷ "1" ∷ "2" ∷ "3" ∷ "4" ∷ "5" ∷ "6" ∷ "7" ∷ "8" ∷ "9" ∷ []

unfoldable pub digit : ℕ → String
digit n = elim (get_elem? digits n) [ none ↦ "" | some d ↦ d ]

-- %d; a number has no more digits than its fuel
unfoldable pub decimal_from : ℕ → ℕ → String
decimal_from zero n = digit n
decimal_from (suc fuel) n =
    let high = decimal_from fuel (n / 10) in
    if ltb n 10 then digit n else text_append high (digit (n % 10))

-- 25 digits are more than a uint64 has.
unfoldable pub decimal : ℕ → String
decimal n = decimal_from 25 n

unfoldable pub generate_msg_key : Message → String
generate_msg_key msg = text_append msg.from (
    text_append "-"
      (text_append (decimal msg.version_seq) (text_append "-" (decimal (iota msg.message_type)))))

-- What the library decodes from the data of a message: the target client of a private message, if
-- the data can be read, and the group of a Raft message.
pub record Codec : Type 0 where
  pub target_client : String → Option (Option String)
  pub raft_group : String → Option String

-- The floods, which every node handles; `none` is any other message.
unfoldable pub flood_handler : MessageType → Option Handler
flood_handler MessageType.topic_init = some Handler.handle_topic_init
flood_handler MessageType.topic_exit = some Handler.handle_topic_exit
flood_handler MessageType.topic_subscribe_flood = some Handler.handle_subscribe_flood
flood_handler MessageType.rpc_service_flood = some Handler.handle_rpc_service_flood
flood_handler MessageType.raft_topic_subscribe_flood = some Handler.handle_raft_subscribe_flood
flood_handler _ = none

module _ {ℓ} {C : Type ℓ} where
  unfoldable pub greet : ℕ → String → Router C → Router C
  greet now sender r = elim (lookup sender r.node_peers) [
    | some peer ↦ r
    | none ↦ record r {
      node_peers =
          insert sender (record { last_active_time = now; status = NodeStatus.active })
            r.node_peers;
    }
  ]

  unfoldable pub on_topic_publish : Message → Router C → Router C
  on_topic_publish msg r = elim (parse_topic_message msg.content) [
    | none ↦ r
    | some parts ↦
        if is_empty msg.bundle_to
        then call_subs parts.0 msg.from parts.1 r
        else start (bundle msg parts.0 parts.1) r
  ]

  unfoldable pub on_raft_topic_publish : Message → Router C → Router C
  on_raft_topic_publish msg r = elim (parse_topic_message msg.content) [
    | none ↦ r
    | some parts ↦
        if is_empty msg.bundle_to
        then call_raft_stub parts.0 msg.from parts.1 r
        else start (raft_bundle msg parts.0 parts.1) r
  ]

  unfoldable pub on_p2p_message : Codec → Message → Router C → Router C
  on_p2p_message codec msg r = elim (codec.target_client msg.content) [
    | none ↦ r
    | some found ↦ elim found [
      | none ↦ r
      | some target ↦ start (private_message target msg.from msg.content) r
    ]
  ]

  unfoldable pub to_stub : String → Message → Router C → Router C
  to_stub group msg r =
      if mem group r.raft_stubs
      then start (on_raft_message Stub.member group msg.from msg.content) r
      else if mem group r.learner_stubs
      then start (on_raft_message Stub.learner group msg.from msg.content) r
      else r

  unfoldable pub on_raft : Codec → Message → Router C → Router C
  on_raft codec msg r = elim (codec.raft_group msg.content) [
    | none ↦ r
    | some group ↦ to_stub group msg r
  ]

  -- The switch for a message whose destination is this node.
  unfoldable pub consume_by : Codec → MessageType → Message → Router C → Router C
  consume_by codec MessageType.quit msg r = start (delete_peer msg.from) r
  consume_by codec MessageType.topic_publish msg r = on_topic_publish msg r
  consume_by codec MessageType.raft_topic_publish msg r = on_raft_topic_publish msg r
  consume_by codec MessageType.rpc_request msg r = start (handle Handler.handle_rpc_request msg) r
  consume_by codec MessageType.rpc_response msg r = start (handle Handler.handle_rpc_response msg) r
  consume_by codec MessageType.p2p_message msg r = on_p2p_message codec msg r
  consume_by codec MessageType.raft_message msg r = on_raft codec msg r
  consume_by codec _ msg r = r

  unfoldable pub consume : Codec → Message → Router C → Router C
  consume codec msg r =
      if is_frp msg.message_type
      then start (handle Handler.handle_frp_messages msg) r
      else consume_by codec msg.message_type msg r

  -- The branch for a message that this node passes on.
  unfoldable pub forward : Message → Router C → Router C
  forward msg r =
      let spent = record msg { ttl = dec16 msg.ttl } in
      if leb_ℤ spent.ttl (pos 0) then r else elim (first_route msg.to r) [
        | none ↦ lose spent r
        | some route ↦
            let routed = record spent { route = route.next_hop_node_id } in
            if mem route.local_channel_id r.channels
            then start
                (channel_send route.local_channel_id route.next_hop_node_id
                  (record routed { last_sender = r.id }))
                r
            else lose routed r
      ]

  unfoldable pub dispatch_to : Codec → Message → Router C → Router C
  dispatch_to codec msg r =
      if str_eq msg.to r.id
      then consume codec msg r
      else if str_eq msg.route r.id
      then forward msg r
      else r

  -- The stages after the duplicates are gone.
  unfoldable pub dispatch : Codec → Message → Router C → Router C
  dispatch codec msg r = elim (flood_handler msg.message_type) [
    | some handler ↦ start (handle handler msg) r
    | none ↦ dispatch_to codec msg r
  ]

  abbrev pub note_received : String → Router C → Router C
  note_received key r = record r { received_msgs = key ∷ r.received_msgs }

  unfoldable pub on_fresh : Codec → Message → Router C → Router C
  on_fresh codec msg r =
      let key = generate_msg_key msg in
      if mem key r.received_msgs then r else dispatch codec msg (note_received key r)

  unfoldable pub on_recv_as : Codec → ℕ → MessageType → Message → Router C → Router C
  on_recv_as codec now MessageType.hello msg r = greet now msg.from r
  on_recv_as codec now MessageType.heart_beat msg r = start (handle Handler.handle_heartbeat msg) r
  on_recv_as codec now _ msg r = on_fresh codec msg r

  -- The sender's name, which is only an argument of the source, is left out.
  unfoldable pub on_recv : Codec → ℕ → Message → Router C → Router C
  on_recv codec now msg r = on_recv_as codec now msg.message_type msg r

  -- One turn of cleanupReceivedMsgs.
  unfoldable cleanup_received_msgs : Router C → Router C
  cleanup_received_msgs r = record r { received_msgs = [] }
