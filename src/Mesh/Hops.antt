-- ===== src/Mesh/Hops.antt =====
-- core/Node.go: how far the TTL of a message lets it travel.
use majula.Prelude.{
  ℕ, zero, suc, ◌+◌, ◌-◌, ◌≤◌, ◌≡◌, ◌≢◌, ap, ◌∙◌, String, Option, none, some, List, ◌∷◌, true,
  arith, length,
}
use majula.Prelude.Int.{pos, negsuc}
use majula.Node.{mem}
use majula.Mesh.{Message, Router, Task, channel_send, retry, dec16, RouteEntry}
use majula.Mesh.Send.{first_route, lose, send_to, send_by}
use majula.Mesh.Receive.{forward}

abbrev sent_message {ℓ} : {C : Type ℓ} → Task C → Option Message
sent_message (channel_send channel hop msg) = some msg
sent_message (retry msg) = some msg
sent_message _ = none

-- The ways of a message through the network, by any nodes and in any states of them: the number
-- counts the nodes that forwarded it. A node may also send a message again that it had to queue.
pub data Travel {ℓ} (C : Type ℓ) (first : Message) : ℕ → Message → Type ℓ where
  here : Travel C first 0 first
  forwarded :
      {n : ℕ} {msg : Message} (next : Message) (r : Router C) (task : Task C)
      → Travel C first n msg
      → (forward msg r).tasks ≡ task ∷ r.tasks
      → sent_message task ≡ some next
      → Travel C first (n + 1) next
  resent :
      {n : ℕ} {msg : Message} (next : Message) (r : Router C) (task : Task C) (target : String)
      (channel : Option String)
      → Travel C first n msg
      → (send_to target msg channel r).tasks ≡ task ∷ r.tasks
      → sent_message task ≡ some next
      → Travel C first n next

module _ {ℓ} {C : Type ℓ} where
  not-longer : (x : Task C) (xs : List (Task C)) → xs ≢ x ∷ xs
  not-longer x xs e = absurd (omega (arith, ap length e))

  forward-spends :
      (msg next : Message) (r : Router C) (task : Task C) (k : ℕ)
      → msg.ttl ≡ pos k
      → (forward msg r).tasks ≡ task ∷ r.tasks
      → sent_message task ≡ some next
      → (next.ttl ≡ pos (k - 1)) × (2 ≤ k)
  unfolding forward lose dec16
  forward-spends msg next r task zero h e f = ground (arith, ap dec16 h, not-longer task r.tasks)
  forward-spends msg next r task (suc zero) h e f =
      ground (arith, ap dec16 h, not-longer task r.tasks)
  forward-spends msg next r task (suc (suc k)) h e f =
      ground (arith, ap dec16 h, not-longer task r.tasks)

  send_to-spends :
      (msg next : Message) (r : Router C) (target : String) (channel : Option String)
      (task : Task C)
      → (send_to target msg channel r).tasks ≡ task ∷ r.tasks
      → sent_message task ≡ some next
      → next.ttl ≡ msg.ttl
  unfolding send_to send_by lose
  send_to-spends msg next r target channel task e f = ground arith

  -- A message whose TTL is k, not negative, is forwarded less than k times (never, if k is 0), and
  -- its TTL is then lower by the number of times that it was, however often it is sent again.
  pub Travel-bounded :
      {first last : Message} {n : ℕ} (k : ℕ)
      → Travel C first n last
      → first.ttl ≡ pos k
      → (n ≤ k - 1) × (last.ttl ≡ pos (k - n))
  Travel-bounded k here h = (omega arith, h ∙ ap pos (omega arith))
  Travel-bounded k (forwarded {n = n} {msg = msg} next r task way e f) h =
      let (bound, left) = Travel-bounded k way h in
      let (spent, enough) = forward-spends msg next r task (k - n) left e f in
      (omega arith, spent ∙ ap pos (omega arith))
  Travel-bounded k (resent {msg = msg} next r task target channel way e f) h =
      let (bound, left) = Travel-bounded k way h in
      (bound, send_to-spends msg next r target channel task e f ∙ left)

  -- An int16 has no -32769: a message of TTL -32768 is passed on with TTL 32767, if its target has
  -- a route by a channel of the node.
  forward-wraps :
      (msg : Message) (r : Router C) (route : RouteEntry)
      → msg.ttl ≡ negsuc 32767
      → first_route msg.to r ≡ some route
      → mem route.local_channel_id r.channels ≡ true
      → (next : Message) × ((forward msg r).tasks
          ≡ channel_send route.local_channel_id route.next_hop_node_id next ∷ r.tasks)
        × (next.ttl ≡ pos 32767)
  unfolding forward dec16
  forward-wraps msg r route h e k = (
    record msg { ttl = dec16 msg.ttl; route = route.next_hop_node_id; last_sender = r.id },
    ground (arith, ap dec16 h),
    ground (arith, ap dec16 h),
  )
