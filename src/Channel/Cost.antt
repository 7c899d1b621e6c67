-- ===== src/Channel/Cost.antt =====
-- core/Channel.go: a cost that is asked for comes back as the time that it took, and silent peers are
-- forgotten.
use majula.Prelude.{
  ℕ, ◌-◌, ◌^◌, ◌<◌, ◌≤◌, ◌≡◌, refl, String, Option, none, some, [], ◌∷◌, Bool, true, false, not,
  ◌||◌, str_eq, eq_iff, arith, Bool-cases, inl, inr,
}
use majula.Prelude.Dict.{Dict, lookup, lookup-insert}
use majula.Prelude.Int.{pos}
use majula.Mesh.{Message, MessageType}
use majula.Mesh.Receive.{decimal}
use majula.Rpc.Services.{IsMap}
use majula.Channel.{
  Channel, Connection, worker_send, link_update, connection_of, update_recv_time, update_send_time,
  send, cost_message, handle_cost_request, handle_cost_ack, receive_by, on_recv, is_expired,
  live_peers, request_costs, check_cost,
}
use majula.Channel.Number.{parse_int64-decimal, sub64}

-- A peer of another name answers a request for the cost, sent at a time before 2^63, with the time in
-- it; when the answer arrives, not before that time, the channel reports a link of the node to the peer
-- whose cost is the time since then.
pub on_recv-cost :
    (sent asked arrived version other : ℕ) (here there : Channel)
    → sent < 2 ^ 63
    → sent ≤ arrived
    → str_eq here.host there.host ≡ false
    → str_eq there.host here.host ≡ false
    → ((on_recv other asked here.host
          (cost_message MessageType.cost_request (decimal sent) there.host here.host)
          there).out
        ≡ worker_send here.host
            (cost_message MessageType.cost_ack (decimal sent) here.host there.host)
          ∷ there.out)
      × ((on_recv version arrived there.host
            (cost_message MessageType.cost_ack (decimal sent) here.host there.host)
            here).out
          ≡ link_update (record {
            source = here.host;
            target = there.host;
            cost = pos (arrived - sent);
            version = version;
            channel = here.id;
          })
            ∷ here.out)
unfolding on_recv receive_by handle_cost_request handle_cost_ack send update_send_time
    update_recv_time sub64
on_recv-cost sent asked arrived version other here there small later a b =
    (ground (arith, a), ground (arith, b, parse_int64-decimal sent small))

abbrev is_peer : Option Connection → Bool
is_peer none = false
is_peer (some conn) = true

abbrev has_peer : String → Dict Connection → Bool
has_peer p peers = is_peer (lookup p peers)

live_peers-missing :
    (now : ℕ) (p : String) (peers : Dict Connection)
    → lookup p peers ≡ none
    → lookup p (live_peers now peers) ≡ none
unfolding live_peers lookup
live_peers-missing now p [] h = refl
live_peers-missing now p ((k, conn) ∷ peers) h = ground (arith, live_peers-missing now p peers)

abbrev is_heard : ℕ → Option Connection → Bool
is_heard now none = false
is_heard now (some conn) = not (is_expired now conn)

live_peers-has_peer :
    (now : ℕ) (p : String) (peers : Dict Connection)
    → IsMap peers
    → has_peer p (live_peers now peers) ≡ is_heard now (lookup p peers)
unfolding live_peers lookup IsMap
live_peers-has_peer now p [] h = refl
live_peers-has_peer now p ((k, conn) ∷ peers) h = elim (Bool-cases (str_eq k p)) [
  | inl e ↦
      ground
        (arith, live_peers-has_peer now p peers h.1, live_peers-missing now k peers h.0, eq_iff k p)
  | inr e ↦ ground (arith, live_peers-has_peer now p peers h.1)
]

has_peer-send :
    (now : ℕ) (p k : String) (msg : Message) (c : Channel)
    → has_peer p (send now k msg c).channel_peers ≡ (str_eq k p || has_peer p c.channel_peers)
unfolding send update_send_time
has_peer-send now p k msg c = ground (
  arith,
  lookup-insert k p (record (connection_of now (lookup k c.channel_peers)) { last_send_time = now })
      c.channel_peers,
)

has_peer-request_costs :
    (now : ℕ) (p : String) (peers : Dict Connection) (c : Channel)
    → has_peer p (request_costs now peers c).channel_peers
      ≡ (has_peer p c.channel_peers || has_peer p peers)
unfolding request_costs lookup
has_peer-request_costs now p [] c = ground arith
has_peer-request_costs now p ((k, conn) ∷ peers) c =
    let msg = cost_message MessageType.cost_request (decimal now) k c.host in
    ground
      (arith, has_peer-request_costs now p peers (send now k msg c), has_peer-send now p k msg c)

-- After a check of a channel, where no peer stands twice, its peers are those that it heard of in
-- the last twenty periods.
has_peer-check_cost :
    (now : ℕ) (p : String) (c : Channel)
    → IsMap c.channel_peers
    → has_peer p (check_cost now c).channel_peers ≡ is_heard now (lookup p c.channel_peers)
unfolding check_cost
has_peer-check_cost now p c h = ground (
  arith,
  has_peer-request_costs now p (live_peers now c.channel_peers)
      (record c { channel_peers = live_peers now c.channel_peers }),
  live_peers-has_peer now p c.channel_peers h,
)
