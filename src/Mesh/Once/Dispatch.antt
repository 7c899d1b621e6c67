-- ===== src/Mesh/Once/Dispatch.antt =====
-- core/Node.go: what onRecv does with a message that is no duplicate leaves the keys as they are.
use majula.Prelude.{◌≡◌, arith, Option-cases, inl, inr}
use majula.Mesh.{Message, MessageType, Router}
use majula.Mesh.Send.{lose}
use majula.Mesh.Topic.{parse_topic_message}
use majula.Mesh.Receive.{
  Codec, on_topic_publish, on_raft_topic_publish, on_p2p_message, to_stub, on_raft, consume_by,
  consume, forward, dispatch_to, dispatch,
}
use majula.Mesh.Once.Frame.{received-call_subs, received-call_raft_stub}

module _ {ℓ} {C : Type ℓ} (codec : Codec) where
  received-on_topic_publish :
      (msg : Message) (r : Router C) → (on_topic_publish msg r).received_msgs ≡ r.received_msgs
  unfolding on_topic_publish
  received-on_topic_publish msg r = elim (Option-cases (parse_topic_message msg.content)) [
    | inl e ↦ ground arith
    | inr (parts, e) ↦ ground (arith, received-call_subs parts.0 msg.from parts.1 r)
  ]

  received-on_raft_topic_publish :
      (msg : Message) (r : Router C) → (on_raft_topic_publish msg r).received_msgs ≡ r.received_msgs
  unfolding on_raft_topic_publish
  received-on_raft_topic_publish msg r = elim (Option-cases (parse_topic_message msg.content)) [
    | inl e ↦ ground arith
    | inr (parts, e) ↦ ground (arith, received-call_raft_stub parts.0 msg.from parts.1 r)
  ]

  received-on_raft :
      (msg : Message) (r : Router C) → (on_raft codec msg r).received_msgs ≡ r.received_msgs
  unfolding on_raft to_stub
  received-on_raft msg r = ground arith

  received-on_p2p_message :
      (msg : Message) (r : Router C) → (on_p2p_message codec msg r).received_msgs ≡ r.received_msgs
  unfolding on_p2p_message
  received-on_p2p_message msg r = ground arith

  received-consume_by :
      (kind : MessageType) (msg : Message) (r : Router C)
      → (consume_by codec kind msg r).received_msgs ≡ r.received_msgs
  unfolding consume_by
  received-consume_by kind msg r = ground (
    arith,
    received-on_topic_publish msg r,
    received-on_raft_topic_publish msg r,
    received-on_raft msg r,
    received-on_p2p_message msg r,
  )

  received-forward :
      (msg : Message) (r : Router C) → (forward msg r).received_msgs ≡ r.received_msgs
  unfolding forward lose
  received-forward msg r = ground arith

  pub received-dispatch :
      (msg : Message) (r : Router C) → (dispatch codec msg r).received_msgs ≡ r.received_msgs
  unfolding dispatch dispatch_to consume
  received-dispatch msg r =
      ground (arith, received-consume_by msg.message_type msg r, received-forward msg r)
