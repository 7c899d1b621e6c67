-- ===== src/Channel.antt =====
-- core/Channel.go: the peers of a channel of a node, and how it measures the cost of its links. The
-- clock is an argument in nanoseconds, read once in each method. What a method starts or calls in
-- the node and the worker is written to `out`, the newest first.
pub mod Number
pub mod Cost
mod Witnesses
use majula.Prelude.{
  ℕ, ◌+◌, ◌-◌, ◌*◌, String, Option, none, some, List, [], ◌∷◌, Bool, true, false, if◌then◌else◌,
  str_eq, ltb,
}
use majula.Prelude.Dict.{Dict, lookup, insert}
use majula.Prelude.Int.{ℤ, pos, negsuc}
use majula.Mesh.{Message, MessageType, own_message}
use majula.Mesh.Receive.{decimal}
use majula.Channel.Number.{parse_int64, sub64}

pub record Connection : Type 0 where
  pub last_recv_time : ℕ
  pub last_send_time : ℕ

-- A link as the channel reports it; its cost is an int64.
pub record Report : Type 0 where
  pub source : String
  pub target : String
  pub cost : ℤ
  pub version : ℕ
  pub channel : String

pub data Output : Type 0 where
  worker_send : String → Message → Output
  worker_broadcast : Message → Output
  -- onRecv of the node, with the node that sent the message
  node_recv : String → Message → Output
  link_update : Report → Output

-- The channel, with the node's identifier.
pub record Channel : Type 0 where
  pub id : String
  pub host : String
  pub channel_peers : Dict Connection
  pub out : List Output

abbrev pub emit : Output → Channel → Channel
emit o c = record c { out = o ∷ c.out }

unfoldable pub connection_of : ℕ → Option Connection → Connection
connection_of now none = record { last_recv_time = now; last_send_time = now }
connection_of now (some conn) = conn

unfoldable pub update_send_time : ℕ → String → Channel → Channel
update_send_time now peer c = record c {
  channel_peers =
      insert peer
        (record (connection_of now (lookup peer c.channel_peers)) { last_send_time = now })
        c.channel_peers;
}

unfoldable pub update_recv_time : ℕ → String → Channel → Channel
update_recv_time now peer c = record c {
  channel_peers =
      insert peer
        (record (connection_of now (lookup peer c.channel_peers)) { last_recv_time = now })
        c.channel_peers;
}

unfoldable pub add_channel_peer : ℕ → String → Channel → Channel
add_channel_peer now peer c = record c {
  channel_peers =
      insert peer (record { last_recv_time = now; last_send_time = now }) c.channel_peers;
}

unfoldable pub touch_all : ℕ → Dict Connection → Channel → Channel
touch_all now [] c = c
touch_all now ((peer, conn) ∷ peers) c = touch_all now peers (update_send_time now peer c)

unfoldable pub broad_cast : ℕ → Message → Channel → Channel
broad_cast now msg c = emit (worker_broadcast msg) (touch_all now c.channel_peers c)

unfoldable pub send : ℕ → String → Message → Channel → Channel
send now next_hop msg c = emit (worker_send next_hop msg) (update_send_time now next_hop c)

-- A message about a cost to a peer.
abbrev pub cost_message : MessageType → String → String → String → Message
cost_message kind time peer host = record (own_message kind time host (pos 1)) {
  to = peer;
  route = peer;
}

unfoldable pub handle_hello : ℕ → String → Message → Channel → Channel
handle_hello now source msg c =
    send now source (cost_message MessageType.cost_request (decimal now) source c.host)
      (add_channel_peer now source (emit (node_recv source msg) c))

unfoldable pub handle_cost_request : ℕ → String → Message → Channel → Channel
handle_cost_request now source msg c =
    send now source (cost_message MessageType.cost_ack msg.content source c.host) c

-- `version` is the node's version of its links.
unfoldable pub handle_cost_ack : ℕ → ℕ → String → Message → Channel → Channel
handle_cost_ack version now source msg c = elim (parse_int64 msg.content) [
  | none ↦ c
  | some cost_time ↦
      emit
        (link_update (record {
          source = c.host;
          target = source;
          cost = sub64 now cost_time;
          version = version;
          channel = c.id;
        }))
        c
]

unfoldable pub receive_by : ℕ → ℕ → String → MessageType → Message → Channel → Channel
receive_by version now source MessageType.cost_request msg c = handle_cost_request now source msg c
receive_by version now source MessageType.cost_ack msg c = handle_cost_ack version now source msg c
receive_by version now source MessageType.hello msg c = handle_hello now source msg c
receive_by version now source _ msg c = emit (node_recv source msg) c

-- A handler runs in its own goroutine; here it follows at once.
unfoldable pub on_recv : ℕ → ℕ → String → Message → Channel → Channel
on_recv version now source msg c =
    if str_eq source c.host
    then c
    else receive_by version now source msg.message_type msg (update_recv_time now source c)

abbrev cost_check_time_period : ℕ
cost_check_time_period = 1000000000

-- Twenty periods without a message.
unfoldable pub is_expired : ℕ → Connection → Bool
is_expired now conn = ltb (conn.last_recv_time + cost_check_time_period * 20) now

unfoldable pub live_peers : ℕ → Dict Connection → Dict Connection
live_peers now [] = []
live_peers now ((peer, conn) ∷ peers) =
    let rest = live_peers now peers in if is_expired now conn then rest else (peer, conn) ∷ rest

unfoldable pub request_costs : ℕ → Dict Connection → Channel → Channel
request_costs now [] c = c
request_costs now ((peer, conn) ∷ peers) c =
    request_costs now peers
      (send now peer (cost_message MessageType.cost_request (decimal now) peer c.host) c)

unfoldable pub check_cost : ℕ → Channel → Channel
check_cost now c =
    let live = live_peers now c.channel_peers in
    request_costs now live (record c { channel_peers = live })

unfoldable on_connect_changed : Bool → Channel → Channel
on_connect_changed false c = c
on_connect_changed true c =
    emit (worker_broadcast (own_message MessageType.hello c.host c.host (pos 1))) c
