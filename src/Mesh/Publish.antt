-- ===== src/Mesh/Publish.antt =====
-- core/Node.go and core/RaftSub.go: a published message is sent once for each next hop, with the
-- list of the nodes behind that hop, and a node that receives such a bundle splits it again.
use Prim.Native.String.{◌++◌ as text_append}
use majula.Prelude.{String, none, some, List, [], ◌∷◌, ◌++◌, true, false, if◌then◌else◌, str_eq}
use majula.Prelude.Dict.{Dict, insert, get_or}
use majula.Prelude.Int.{ℤ, pos}
use majula.Node.{mem}
use majula.Mesh.{Message, MessageType, own_message, Router, start, callback, on_raft_message, Stub}
use majula.Mesh.Send.{first_route, send_to}

abbrev default_message_ttl : ℤ
default_message_ttl = pos 100

-- groups[hop] = append(groups[hop], target)
unfoldable pub add_to_group : String → String → Dict (List String) → Dict (List String)
add_to_group hop target groups = insert hop (get_or [] hop groups ++ target ∷ []) groups

abbrev pub topic_data : String → String → String
topic_data topic payload = text_append topic (text_append "|" payload)

-- nodeID == node.ID is skipped
unfoldable pub other_nodes : String → List String → List String
other_nodes id [] = []
other_nodes id (node ∷ nodes) =
    let rest = other_nodes id nodes in if str_eq node id then rest else node ∷ rest

module _ {ℓ} {C : Type ℓ} where
  unfoldable pub group_target : Router C → String → Dict (List String) → Dict (List String)
  group_target r target groups = elim (first_route target r) [
    | none ↦ groups
    | some route ↦ add_to_group route.next_hop_node_id target groups
  ]

  unfoldable pub group_targets : Router C → List String → Dict (List String) → Dict (List String)
  group_targets r [] groups = groups
  group_targets r (target ∷ targets) groups = group_targets r targets (group_target r target groups)

  unfoldable pub start_callbacks : Dict C → String → String → String → Router C → Router C
  start_callbacks [] topic from payload r = r
  start_callbacks ((client, cb) ∷ subs) topic from payload r =
      start_callbacks subs topic from payload (start (callback cb topic from payload) r)

  -- for _, cb := range node.MySubs[topic]
  unfoldable pub call_subs : String → String → String → Router C → Router C
  call_subs topic from payload r = start_callbacks (get_or [] topic r.my_subs) topic from payload r

  unfoldable pub call_raft_stub : String → String → String → Router C → Router C
  call_raft_stub group from payload r =
      if mem group r.raft_stubs then start (on_raft_message Stub.member group from payload) r else r

  -- One group of a publication: a single target gets a message of its own.
  unfoldable pub send_group : MessageType → String → String → List String → Router C → Router C
  send_group kind content hop [] r = send_to hop (own_message kind content r.id (pos 1)) none r
  send_group kind content hop (target ∷ []) r =
      send_to target (record (own_message kind content r.id default_message_ttl) { to = target })
        none r
  send_group kind content hop (first ∷ second ∷ more) r =
      send_to hop
        (record (own_message kind content r.id (pos 1)) { bundle_to = first ∷ second ∷ more }) none
        r

  unfoldable pub send_groups : MessageType → String → Dict (List String) → Router C → Router C
  send_groups kind content [] r = r
  send_groups kind content ((hop, targets) ∷ groups) r =
      send_groups kind content groups (send_group kind content hop targets r)

  unfoldable pub publish_on_topic : String → String → Router C → Router C
  publish_on_topic topic payload r =
      let called = call_subs topic r.id payload r in
      send_groups MessageType.topic_publish (topic_data topic payload)
        (group_targets called (get_or [] topic r.total_subs) []) called

  unfoldable pub publish_on_raft_topic : String → String → Router C → Router C
  publish_on_raft_topic group payload r =
      let called = call_raft_stub group r.id payload r in
      send_groups MessageType.raft_topic_publish (topic_data group payload)
        (group_targets called (other_nodes r.id (get_or [] group r.raft_peers)) []) called

  -- The loop over BundleTo; `deliver` is what the node does where it is a target itself.
  unfoldable pub split_bundle :
      (Router C → Router C)
      → List String
      → Dict (List String) × Router C
      → Dict (List String) × Router C
  split_bundle deliver [] (groups, r) = (groups, r)
  split_bundle deliver (target ∷ targets) (groups, r) = elim (str_eq target r.id) [
    | true ↦ split_bundle deliver targets (groups, deliver r)
    | false ↦ split_bundle deliver targets (group_target r target groups, r)
  ]

  unfoldable pub send_copies : Message → Dict (List String) → Router C → Router C
  send_copies msg [] r = r
  send_copies msg ((hop, targets) ∷ groups) r =
      send_copies msg groups
        (send_to hop (record msg { to = ""; route = ""; bundle_to = targets }) none r)

  abbrev pub forward_bundle : (Router C → Router C) → Message → Router C → Router C
  forward_bundle deliver msg r =
      let split = split_bundle deliver msg.bundle_to ([], r) in send_copies msg split.0 split.1

  unfoldable pub handle_bundle : Message → String → String → Router C → Router C
  handle_bundle msg topic payload r = forward_bundle (call_subs topic msg.from payload) msg r

  unfoldable pub handle_raft_bundle : Message → String → String → Router C → Router C
  handle_raft_bundle msg group payload r =
      forward_bundle (call_raft_stub group msg.from payload) msg r
