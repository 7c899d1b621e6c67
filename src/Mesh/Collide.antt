-- ===== src/Mesh/Collide.antt =====
-- core/Node.go: sendTo stamps every message with the version of the node that sends it, also those
-- that it passes on for another.
use majula.Prelude.{
  ℕ, ◌≡◌, refl, sym, ap, ◌∙◌, String, some, none, List, [], ◌∷◌, true, false, str_eq, arith,
}
use majula.Prelude.Dict.{insert, get_or}
use majula.Node.{mem}
use majula.Mesh.{Message, Router, channel_send, RouteEntry}
use majula.Mesh.Send.{first_route, send_to, send_by, stamp}
use majula.Mesh.Publish.{
  split_bundle, send_copies, handle_bundle, call_subs, group_target, add_to_group,
}
use majula.Mesh.Receive.{Codec, generate_msg_key, on_recv}
use majula.Mesh.Once.{Event, is_deduplicated, run, on_recv-once}

module _ {ℓ} {C : Type ℓ} where
  -- What sendTo puts on a route for a message.
  abbrev copy_by : RouteEntry → String → Message → Router C → Message
  copy_by route target msg r = record (stamp target msg r) { route = route.next_hop_node_id }

  send_to-tasks :
      (target : String) (msg : Message) (route : RouteEntry) (r : Router C)
      → first_route target r ≡ some route
      → mem route.local_channel_id r.channels ≡ true
      → (send_to target msg none r).tasks
        ≡ channel_send route.local_channel_id route.next_hop_node_id (copy_by route target msg r)
          ∷ r.tasks
  unfolding send_to send_by
  send_to-tasks target msg route r found up = ground arith

  key-copy :
      (left right : Message) (by at : RouteEntry) (target other : String) (p q : Router C)
      → left.from ≡ right.from
      → left.message_type ≡ right.message_type
      → p.message_version_counter ≡ q.message_version_counter
      → generate_msg_key (copy_by by target left p) ≡ generate_msg_key (copy_by at other right q)
  unfolding generate_msg_key
  key-copy left right by at target other p q e f g = rw (e, f, g) refl

  -- Two messages of one origin and one looked-up type, whatever they carry, that two nodes with
  -- routes for them pass on when their counters are equal, count as one: a node that has received
  -- what the first sends leaves what the second sends, until it next clears the received keys.
  pub on_recv-stamp_collision :
      (codec : Codec) (left right : Message) (by at : RouteEntry) (target other : String)
      (p q : Router C) (now : ℕ) (es : List (Event C)) (later : ℕ) (r : Router C)
      → first_route target p ≡ some by
      → mem by.local_channel_id p.channels ≡ true
      → first_route other q ≡ some at
      → mem at.local_channel_id q.channels ≡ true
      → left.from ≡ right.from
      → left.message_type ≡ right.message_type
      → p.message_version_counter ≡ q.message_version_counter
      → is_deduplicated left.message_type ≡ true
      → (first : Message) × (second : Message) × ((send_to target left none p).tasks
          ≡ channel_send by.local_channel_id by.next_hop_node_id first ∷ p.tasks)
        × ((send_to other right none q).tasks
            ≡ channel_send at.local_channel_id at.next_hop_node_id second ∷ q.tasks)
        × (first.content ≡ left.content)
        × (second.content ≡ right.content)
        × (on_recv codec later second (run codec es (on_recv codec now first r))
            ≡ run codec es (on_recv codec now first r))
  on_recv-stamp_collision codec left right by at target other p q now es later r b x a y e f g h = (
    copy_by by target left p,
    copy_by at other right q,
    send_to-tasks target left by p b x,
    send_to-tasks other right at q a y,
    refl,
    refl,
    on_recv-once codec now (copy_by by target left p) es later (copy_by at other right q) r h
        (sym (ap is_deduplicated f) ∙ h) (sym (key-copy left right by at target other p q e f g)),
  )

  split-one :
      (deliver : Router C → Router C) (target : String) (targets : List String) (route : RouteEntry)
      (r : Router C)
      → targets ≡ target ∷ []
      → str_eq target r.id ≡ false
      → first_route target r ≡ some route
      → split_bundle deliver targets ([], r) ≡ ((route.next_hop_node_id, target ∷ []) ∷ [], r)
  unfolding split_bundle group_target add_to_group insert get_or
  split-one deliver target targets route r h away e = ground arith

  -- A bundle for one other node, to whose next hop the node has a route by one of its channels, is
  -- passed on with its TTL as it came, whatever that is.
  pub handle_bundle-keeps_ttl :
      (msg : Message) (topic payload target : String) (route next : RouteEntry) (r : Router C)
      → msg.bundle_to ≡ target ∷ []
      → str_eq target r.id ≡ false
      → first_route target r ≡ some route
      → first_route route.next_hop_node_id r ≡ some next
      → mem next.local_channel_id r.channels ≡ true
      → (copy : Message) × ((handle_bundle msg topic payload r).tasks
          ≡ channel_send next.local_channel_id next.next_hop_node_id copy ∷ r.tasks)
        × (copy.ttl ≡ msg.ttl)
        × (copy.bundle_to ≡ target ∷ [])
        × (copy.version_seq ≡ r.message_version_counter)
  unfolding handle_bundle send_copies send_to send_by
  handle_bundle-keeps_ttl msg topic payload target route next r h away e f c = (
    record (stamp route.next_hop_node_id msg r) {
      route = next.next_hop_node_id;
      bundle_to = target ∷ [];
    },
    ground
        (arith, split-one (call_subs topic msg.from payload) target msg.bundle_to route r h away e),
    refl,
    refl,
    refl,
  )
