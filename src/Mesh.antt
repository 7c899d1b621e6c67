-- ===== src/Mesh.antt =====
-- core/Message.go and the part of core/Node.go that sends, receives and forwards messages. A
-- goroutine that a method starts is a task of the node, the newest first; the tasks run in any
-- order. A map is a dictionary, and its keys alone where the values are another component's.
pub mod Send
pub mod Topic
pub mod Publish
pub mod Receive
pub mod Groups
pub mod Once
pub mod Hops
pub mod Collide
mod Witnesses
use majula.Prelude.{
  ℕ, zero, suc, ◌+◌, ◌%◌, ◌^◌, String, List, [], ◌∷◌, Bool, true, false, if◌then◌else◌, ◌==◌,
}
use majula.Prelude.Dict.{Dict}
use majula.Prelude.Int.{ℤ, pos, negsuc}
use majula.Links.{NodePeer}

pub data MessageType : Type 0 where
  heart_beat cost_request cost_ack quit hello tcp_register other : MessageType
  topic_init topic_exit topic_publish topic_subscribe_flood : MessageType
  rpc_request rpc_response rpc_service_flood p2p_message : MessageType
  frp_data frp_ack frp_close frp_resend_request : MessageType
  raft_topic_init raft_topic_exit raft_topic_publish raft_topic_subscribe_flood : MessageType
  raft_message raft_learner_join : MessageType

-- The number of the constant; another number is not modelled.
unfoldable pub iota : MessageType → ℕ
iota heart_beat = 0
iota cost_request = 1
iota cost_ack = 2
iota quit = 3
iota hello = 4
iota tcp_register = 5
iota other = 6
iota topic_init = 7
iota topic_exit = 8
iota topic_publish = 9
iota topic_subscribe_flood = 10
iota rpc_request = 11
iota rpc_response = 12
iota rpc_service_flood = 13
iota p2p_message = 14
iota frp_data = 15
iota frp_ack = 16
iota frp_close = 17
iota frp_resend_request = 18
iota raft_topic_init = 19
iota raft_topic_exit = 20
iota raft_topic_publish = 21
iota raft_topic_subscribe_flood = 22
iota raft_message = 23
iota raft_learner_join = 24

-- With the fields of the embedded MessageData first.
pub record Message : Type 0 where
  pub message_type : MessageType
  pub content : String
  pub bundle_to : List String
  pub entity : String
  pub from : String
  pub to : String
  pub route : String
  pub ttl : ℤ
  pub lost : Bool
  pub version_seq : ℕ
  pub last_sender : String
  pub invoke_id : ℤ

unfoldable pub is_frp : MessageType → Bool
is_frp frp_data = true
is_frp frp_ack = true
is_frp frp_close = true
is_frp frp_resend_request = true
is_frp _ = false

unfoldable is_important : MessageType → Bool
is_important other = false
is_important _ = true

unfoldable check_broad_cast : MessageType → Bool
check_broad_cast heart_beat = true
check_broad_cast hello = true
check_broad_cast topic_init = true
check_broad_cast topic_exit = true
check_broad_cast topic_publish = true
check_broad_cast topic_subscribe_flood = true
check_broad_cast rpc_service_flood = true
check_broad_cast _ = false

-- The message that a node makes: the other fields are Go's zero values.
abbrev pub own_message : MessageType → String → String → ℤ → Message
own_message kind content id ttl = record {
  message_type = kind;
  content = content;
  bundle_to = [];
  entity = "";
  from = id;
  to = "";
  route = "";
  ttl = ttl;
  lost = false;
  version_seq = 0;
  last_sender = id;
  invoke_id = pos 0;
}

-- TTL -= 1 on an int16
unfoldable pub dec16 : ℤ → ℤ
dec16 (pos zero) = negsuc 0
dec16 (pos (suc n)) = pos n
dec16 (negsuc n) = if n == 32767 then pos 32767 else negsuc (suc n)

-- The int64 counter of versions, as the uint64 that messages carry.
abbrev pub next_version : ℕ → ℕ
next_version n = (n + 1) % 2 ^ 64

pub record RouteEntry : Type 0 where
  pub local_channel_id : String
  pub next_hop_node_id : String

abbrev pub RoutingTable : Type 0
RoutingTable = Dict (List RouteEntry)

-- The methods that onRecv starts for a message as a whole.
pub data Handler : Type 0 where
  handle_heartbeat handle_topic_init handle_topic_exit handle_subscribe_flood : Handler
  handle_rpc_service_flood handle_raft_subscribe_flood handle_frp_messages : Handler
  handle_rpc_request handle_rpc_response : Handler

pub data Stub : Type 0 where
  member learner : Stub

pub data Task {ℓ} (C : Type ℓ) : Type ℓ where
  -- the channel, the next hop and the message
  channel_send : String → String → Message → Task C
  broad_cast : String → Message → Task C
  retry : Message → Task C
  -- the callback, the topic, the sender and the payload
  callback : C → String → String → String → Task C
  handle : Handler → Message → Task C
  -- the message, the topic and the payload
  bundle raft_bundle : Message → String → String → Task C
  delete_peer : String → Task C
  -- the stub, its group, the sender and the content
  on_raft_message : Stub → String → String → String → Task C
  -- the loop over the servers of clients, for the target, the sender and the data
  private_message : String → String → String → Task C

pub record Router {ℓ} (C : Type ℓ) : Type ℓ where
  pub id : String
  pub message_version_counter : ℕ
  pub routing_table : RoutingTable
  pub channels : List String
  pub retry_queue : List Message
  pub received_msgs : List String
  pub node_peers : Dict NodePeer
  pub my_subs : Dict (Dict C)
  pub total_subs : Dict (List String)
  pub raft_stubs : List String
  pub learner_stubs : List String
  pub raft_peers : Dict (List String)
  pub tasks : List (Task C)

abbrev pub start {ℓ} : {C : Type ℓ} → Task C → Router C → Router C
start t r = record r { tasks = t ∷ r.tasks }
