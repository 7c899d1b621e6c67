-- ===== src/Mesh/Topic/Delivery.antt =====
-- core/Topic.go, core/Node.go: a published message reaches the callbacks of its topic.
use Prim.Native.Char.{Char}
use Prim.Native.String.{String, [], ◌∷◌, ◌++◌ as text_append}
use majula.Prelude.{
  ℕ, ◌≡◌, refl, ap, ◌∙◌, some, true, false, arith, Bool-cases, inl, inr, str_eq, ◌++◌,
}
use majula.Mesh.Topic.Calls.{calls_of, subs_of, call_subs_lem}
use text.Mathlib.TextLemmas.{nil-append, cons-append}
use majula.Node.{mem, is_empty}
use majula.Mesh.{Message, MessageType, Router, is_frp}
use majula.Mesh.Topic.{is_bar, parse_topic_message, has_bar}
use majula.Mesh.Publish.{topic_data, call_subs}
use majula.Mesh.Receive.{
  Codec, generate_msg_key, note_received, flood_handler, on_topic_publish, consume_by, consume,
  dispatch_to, dispatch, on_fresh, on_recv_as, on_recv,
}

parse_step :
    (c : Char) (s topic payload : String)
    → is_bar c ≡ false
    → parse_topic_message s ≡ some (topic, payload)
    → parse_topic_message (c ∷ s) ≡ some (c ∷ topic, payload)
unfolding parse_topic_message
parse_step c s topic payload e h = rw (e, h) refl

parse_bar : (payload : String) → parse_topic_message (text_append "|" payload) ≡ some ("", payload)
unfolding parse_topic_message is_bar
parse_bar payload =
    ap parse_topic_message (cons-append "|" "" payload ∙ ap (λ s. "|" ∷ s) (nil-append payload))

-- A topic without the separator and a payload, written as a message's data, are read back.
parse_topic_message-topic_data :
    (topic payload : String)
    → has_bar topic ≡ false
    → parse_topic_message (topic_data topic payload) ≡ some (topic, payload)
unfolding has_bar
parse_topic_message-topic_data [] payload h =
    ap parse_topic_message (nil-append (text_append "|" payload)) ∙ parse_bar payload
parse_topic_message-topic_data (c ∷ topic) payload h = elim (Bool-cases (is_bar c)) [
  | inl e ↦ absurd (ground arith)
  | inr e ↦
      ap parse_topic_message (cons-append c topic (text_append "|" payload))
      ∙ parse_step c (topic_data topic payload) topic payload e
          (parse_topic_message-topic_data topic payload (ground arith))
]

module _ {ℓ} {C : Type ℓ} (codec : Codec) where
  on_recv_called :
      (now : ℕ) (msg : Message) (topic payload : String) (r : Router C)
      → msg.message_type ≡ MessageType.topic_publish
      → msg.content ≡ topic_data topic payload
      → has_bar topic ≡ false
      → is_empty msg.bundle_to ≡ true
      → str_eq msg.to r.id ≡ true
      → mem (generate_msg_key msg) r.received_msgs ≡ false
      → on_recv codec now msg r
        ≡ call_subs topic msg.from payload (note_received (generate_msg_key msg) r)
  unfolding on_recv on_recv_as on_fresh dispatch flood_handler dispatch_to consume consume_by is_frp
      on_topic_publish
  on_recv_called now msg topic payload r kind written clean alone own fresh =
      ground
        (arith, ap parse_topic_message written, parse_topic_message-topic_data topic payload clean)

  -- A node that receives a topic's message addressed to it, with no bundle and of a key that it does
  -- not hold, starts a call of the callback of each of its subscribers to the topic with the topic,
  -- the sender and the payload, if the topic has no separator in it, and does nothing else but to
  -- keep the key.
  pub on_recv-topic_data :
      (now : ℕ) (msg : Message) (topic payload : String) (r : Router C)
      → msg.message_type ≡ MessageType.topic_publish
      → msg.content ≡ topic_data topic payload
      → has_bar topic ≡ false
      → is_empty msg.bundle_to ≡ true
      → str_eq msg.to r.id ≡ true
      → mem (generate_msg_key msg) r.received_msgs ≡ false
      → on_recv codec now msg r ≡ record (note_received (generate_msg_key msg) r) {
        tasks = calls_of (subs_of topic r) topic msg.from payload ++ r.tasks;
      }
  on_recv-topic_data now msg topic payload r kind written clean alone own fresh =
      on_recv_called now msg topic payload r kind written clean alone own fresh
      ∙ call_subs_lem topic msg.from payload (note_received (generate_msg_key msg) r)
