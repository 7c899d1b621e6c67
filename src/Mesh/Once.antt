-- ===== src/Mesh/Once.antt =====
-- core/Node.go: a node handles a message once, however often and by whatever ways it arrives.
pub mod Frame
pub mod Dispatch
use majula.Prelude.{
  ℕ, ◌≡◌, refl, sym, ap, ◌∙◌, subst, String, Option, List, [], ◌∷◌, Bool, true, false, str_eq,
  arith, str_eq_self, Bool-cases, inl, inr, if◌then◌else◌, eq_iff,
}
use majula.Node.{mem}
use majula.Mesh.{Message, MessageType, Router, Task, start, Handler, handle}
use majula.Mesh.Send.{send_to, retry_turn, broadcast_on, say_hello, heartbeat, send_quit, run_task}
use majula.Mesh.Publish.{publish_on_topic, publish_on_raft_topic, handle_bundle, handle_raft_bundle}
use majula.Mesh.Receive.{
  Codec, generate_msg_key, greet, dispatch, note_received, on_fresh, on_recv_as, on_recv,
}
use majula.Mesh.Once.Frame.{
  received-send_to, received-retry_turn, received-say_hello, received-heartbeat, received-send_quit,
  received-run_task, received-publish_on_topic, received-publish_on_raft_topic,
  received-handle_bundle, received-handle_raft_bundle,
}
use majula.Mesh.Once.Dispatch.{received-dispatch}

-- What happens at a node between two turns of cleanupReceivedMsgs; the numbers are times.
pub data Event {ℓ} (C : Type ℓ) : Type ℓ where
  received : ℕ → Message → Event C
  sent : String → Message → Option String → Event C
  published raft_published : String → String → Event C
  split raft_split : Message → String → String → Event C
  retried greeted quitted : Event C
  beaten : String → Event C
  ran : Task C → Event C

-- Whether a message is one of those that onRecv looks up among the received.
unfoldable pub is_deduplicated : MessageType → Bool
is_deduplicated MessageType.hello = false
is_deduplicated MessageType.heart_beat = false
is_deduplicated _ = true

module _ {ℓ} {C : Type ℓ} (codec : Codec) where
  unfoldable pub step : Event C → Router C → Router C
  step (received now msg) r = on_recv codec now msg r
  step (sent target msg channel) r = send_to target msg channel r
  step (published topic payload) r = publish_on_topic topic payload r
  step (raft_published group payload) r = publish_on_raft_topic group payload r
  step (split msg topic payload) r = handle_bundle msg topic payload r
  step (raft_split msg group payload) r = handle_raft_bundle msg group payload r
  step retried r = retry_turn r
  step greeted r = say_hello r
  step quitted r = send_quit r
  step (beaten links) r = heartbeat links r
  step (ran task) r = run_task task r

  unfoldable pub run : List (Event C) → Router C → Router C
  run [] r = r
  run (e ∷ es) r = run es (step e r)

  abbrev IsKnown : String → Router C → Type 0
  IsKnown key r = mem key r.received_msgs ≡ true

  on_fresh-IsKnown :
      (key : String) (msg : Message) (r : Router C)
      → IsKnown key r
      → IsKnown key (on_fresh codec msg r)
  unfolding on_fresh mem
  on_fresh-IsKnown key msg r h =
      ground (arith, received-dispatch codec msg (note_received (generate_msg_key msg) r))

  on_recv-IsKnown :
      (key : String) (now : ℕ) (msg : Message) (r : Router C)
      → IsKnown key r
      → IsKnown key (on_recv codec now msg r)
  unfolding on_recv on_recv_as greet
  on_recv-IsKnown key now msg r h = ground (arith, on_fresh-IsKnown key msg r h)

  step-IsKnown :
      (key : String) (e : Event C) (r : Router C) → IsKnown key r → IsKnown key (step e r)
  unfolding step
  step-IsKnown key (received now msg) r h = on_recv-IsKnown key now msg r h
  step-IsKnown key (sent target msg channel) r h = rw (received-send_to target msg channel r) h
  step-IsKnown key (published topic payload) r h = rw (received-publish_on_topic topic payload r) h
  step-IsKnown key (raft_published group payload) r h =
      rw (received-publish_on_raft_topic group payload r) h
  step-IsKnown key (split msg topic payload) r h = rw (received-handle_bundle msg topic payload r) h
  step-IsKnown key (raft_split msg group payload) r h =
      rw (received-handle_raft_bundle msg group payload r) h
  step-IsKnown key retried r h = rw (received-retry_turn r) h
  step-IsKnown key greeted r h = rw (received-say_hello r) h
  step-IsKnown key quitted r h = rw (received-send_quit r) h
  step-IsKnown key (beaten links) r h = rw (received-heartbeat links r) h
  step-IsKnown key (ran task) r h = rw (received-run_task task r) h

  run-IsKnown :
      (key : String) (es : List (Event C)) (r : Router C) → IsKnown key r → IsKnown key (run es r)
  unfolding run
  run-IsKnown key [] r h = h
  run-IsKnown key (e ∷ es) r h = run-IsKnown key es (step e r) (step-IsKnown key e r h)

  -- A message that is looked up is known once it was received.
  IsKnown-on_recv :
      (now : ℕ) (msg : Message) (r : Router C)
      → is_deduplicated msg.message_type ≡ true
      → IsKnown (generate_msg_key msg) (on_recv codec now msg r)
  unfolding on_recv on_recv_as on_fresh is_deduplicated mem
  IsKnown-on_recv now msg r h = ground (
    arith,
    received-dispatch codec msg (note_received (generate_msg_key msg) r),
    str_eq_self (generate_msg_key msg),
  )

  on_recv-known :
      (now : ℕ) (msg : Message) (r : Router C)
      → is_deduplicated msg.message_type ≡ true
      → IsKnown (generate_msg_key msg) r
      → on_recv codec now msg r ≡ r
  unfolding on_recv on_recv_as on_fresh is_deduplicated
  on_recv-known now msg r h known = ground arith

  -- After a message was received, whatever else is received, sent, published, retried or run until
  -- the received keys are next cleared, every message of its key that is no heartbeat and no hello
  -- leaves the node as it is.
  pub on_recv-once :
      (now : ℕ) (msg : Message) (es : List (Event C)) (later : ℕ) (again : Message) (r : Router C)
      → is_deduplicated msg.message_type ≡ true
      → is_deduplicated again.message_type ≡ true
      → generate_msg_key again ≡ generate_msg_key msg
      → on_recv codec later again (run es (on_recv codec now msg r))
        ≡ run es (on_recv codec now msg r)
  on_recv-once now msg es later again r h k same =
      on_recv-known later again (run es (on_recv codec now msg r)) k (
        rw same (
          run-IsKnown (generate_msg_key msg) es (on_recv codec now msg r)
            (IsKnown-on_recv now msg r h)))
