-- ===== src/Mesh/Witnesses.antt =====
-- core/Node.go: the theorems on messages at a node with two neighbours.
use majula.Prelude.{ℕ, ◌+◌, ◌-◌, ◌≤◌, ◌≡◌, refl, none, some, [], ◌∷◌, true, false}
use majula.Prelude.Dict.{lookup, get_or}
use majula.Prelude.Int.{pos}
use majula.Node.{mem}
use majula.Mesh.{
  Message, MessageType, own_message, RouteEntry, Router, channel_send, callback, dec16,
}
use majula.Mesh.Send.{first_route, send_to}
use majula.Mesh.Topic.{has_bar, is_bar}
use majula.Mesh.Publish.{handle_bundle, topic_data}
use majula.Mesh.Receive.{Codec, on_recv, note_received, generate_msg_key, forward}
use majula.Mesh.Once.{retried, run, is_deduplicated, on_recv-once}
use majula.Mesh.Hops.{here, forwarded, Travel-bounded}
use majula.Mesh.Collide.{on_recv-stamp_collision, handle_bundle-keeps_ttl}
use majula.Mesh.Topic.Calls.{calls_of}
use majula.Mesh.Topic.Delivery.{on_recv-topic_data}
use majula.Mesh.Groups.{count_of}
use majula.Mesh.Groups.Sends.{under_way, under_way-publish_on_topic}
use majula.Mesh.Groups.Bundles.{under_way-handle_bundle}
use majula.Mesh.Publish.{publish_on_topic}

abbrev codec : Codec
codec = record { target_client = λ s. none; raft_group = λ s. none }

abbrev by_m : RouteEntry
by_m = record { local_channel_id = "n-1"; next_hop_node_id = "m" }

abbrev node : Router ℕ
node = record {
  id = "n";
  message_version_counter = 4;
  routing_table = ("m", by_m ∷ []) ∷ ("k", by_m ∷ []) ∷ [];
  channels = "n-1" ∷ [];
  retry_queue = [];
  received_msgs = [];
  node_peers = [];
  my_subs = ("t", ("c", 7) ∷ []) ∷ [];
  total_subs = ("t", "m" ∷ "k" ∷ []) ∷ [];
  raft_stubs = [];
  learner_stubs = [];
  raft_peers = [];
  tasks = [];
}

abbrev passing : Message
passing = record (own_message MessageType.other "x" "o" (pos 5)) { to = "k"; route = "n" }

abbrev bundled_message : Message
bundled_message = record (own_message MessageType.topic_publish "t|x" "o" (pos 1)) {
  to = "n";
  bundle_to = "k" ∷ [];
}

abbrev published_message : Message
published_message =
    record (own_message MessageType.topic_publish (topic_data "t" "x") "o" (pos 9)) { to = "n" }

other_looked_up : is_deduplicated MessageType.other ≡ true
unfolding is_deduplicated
other_looked_up = refl

on_recv-once_example :
    on_recv codec 2 passing (run codec (retried ∷ []) (on_recv codec 1 passing node))
    ≡ run codec (retried ∷ []) (on_recv codec 1 passing node)
on_recv-once_example =
    on_recv-once codec 1 passing (retried ∷ []) 2 passing node other_looked_up other_looked_up refl

route_k : first_route "k" node ≡ some by_m
unfolding first_route lookup
route_k = refl

route_m : first_route "m" node ≡ some by_m
unfolding first_route lookup
route_m = refl

channel_1 : mem "n-1" node.channels ≡ true
unfolding mem
channel_1 = refl

abbrev passed : Message
passed = record passing { ttl = pos 4; route = "m"; last_sender = "n" }

passes : (forward passing node).tasks ≡ channel_send "n-1" "m" passed ∷ node.tasks
unfolding forward dec16 first_route lookup mem
passes = refl

Travel-bounded_example : (0 + 1 ≤ 5 - 1) × (passed.ttl ≡ pos (5 - (0 + 1)))
Travel-bounded_example =
    Travel-bounded 5 (forwarded passed node (channel_send "n-1" "m" passed) here passes refl) refl

-- Another message of the origin, which another node passes on.
abbrev second_message : Message
second_message = record passing { content = "y"; to = "m" }

abbrev other_node : Router ℕ
other_node = record node { id = "w" }

other_route : first_route "m" other_node ≡ some by_m
unfolding first_route lookup
other_route = refl

on_recv-stamp_collision_example :
    (first : Message) × (second : Message) × ((send_to "k" passing none node).tasks
      ≡ channel_send "n-1" "m" first ∷ [])
    × ((send_to "m" second_message none other_node).tasks ≡ channel_send "n-1" "m" second ∷ [])
    × (first.content ≡ "x")
    × (second.content ≡ "y")
    × (on_recv codec 2 second (run codec [] (on_recv codec 1 first node))
        ≡ run codec [] (on_recv codec 1 first node))
on_recv-stamp_collision_example =
    on_recv-stamp_collision codec passing second_message by_m by_m "k" "m" node other_node 1 [] 2
      node route_k channel_1 other_route channel_1 refl refl refl other_looked_up

handle_bundle-keeps_ttl_example :
    (copy : Message) × ((handle_bundle bundled_message "t" "x" node).tasks
      ≡ channel_send "n-1" "m" copy ∷ node.tasks)
    × (copy.ttl ≡ pos 1)
    × (copy.bundle_to ≡ "k" ∷ [])
    × (copy.version_seq ≡ 4)
handle_bundle-keeps_ttl_example =
    handle_bundle-keeps_ttl bundled_message "t" "x" "k" by_m by_m node refl refl route_k route_m
      channel_1

no_bar : has_bar "t" ≡ false
unfolding has_bar is_bar
no_bar = refl

unknown : mem (generate_msg_key published_message) node.received_msgs ≡ false
unfolding mem
unknown = refl

on_recv-topic_data_example :
    on_recv codec 1 published_message node
    ≡ record (note_received (generate_msg_key published_message) node) {
      tasks = callback 7 "t" "o" "x" ∷ [];
    }
unfolding calls_of get_or lookup
on_recv-topic_data_example =
    on_recv-topic_data codec 1 published_message "t" "x" node refl refl no_bar refl refl unknown

abbrev own_and_other : Message
own_and_other = record bundled_message { bundle_to = "n" ∷ "k" ∷ [] }

under_way-publish_on_topic_example : under_way "k" (publish_on_topic "t" "x" node).tasks ≡ 1
unfolding first_route lookup count_of get_or under_way
under_way-publish_on_topic_example = under_way-publish_on_topic "k" "t" "x" node

under_way-handle_bundle_example : under_way "k" (handle_bundle own_and_other "t" "x" node).tasks ≡ 1
unfolding first_route lookup count_of under_way
under_way-handle_bundle_example = under_way-handle_bundle "k" own_and_other "t" "x" node
