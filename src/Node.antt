-- ===== src/Node.antt =====
-- core/Node.go: the topics and clients of a node. Messages to the channels are written to `flood`,
-- the newest first; each is broadcast on every channel, by goroutines. A method holds the mutex of
-- the map that it changes to its end.
pub mod Subs
pub mod Topics
mod Witnesses
use majula.Prelude.{
  ℕ, ◌+◌, String, Option, none, some, List, [], ◌∷◌, ◌++◌, Bool, true, false, not, length,
  if◌then◌else◌, str_eq, ◌||◌, ◌==◌, filter_if,
}
use majula.Prelude.Dict.{Dict, lookup, insert, delete, get_or}

pub record SubscriptionInfo : Type 0 where
  pub node_id : String
  pub topics : List String

-- What a node floods: its own messages carry a version; those of others are passed on.
pub data Flood : Type 0 where
  topic_init topic_exit : String → ℕ → Flood
  topic_subscribe_flood : SubscriptionInfo → ℕ → Flood
  forward_init forward_exit : String → String → Flood
  forward_flood : Option SubscriptionInfo → Flood

-- A callback or an RPC function stands for itself, of type C. The maps are made by the constructors
-- of a node and are never nil.
pub record Node {ℓ} (C : Type ℓ) : Type ℓ where
  pub id : String
  pub message_version_counter : ℕ
  pub my_subs : Dict (Dict C)
  pub total_subs : Dict (List String)
  pub rpc_funcs : Dict (Dict C)
  pub client_ids : List String
  pub flood : List Flood

unfoldable pub mem : String → List String → Bool
mem a [] = false
mem a (x ∷ xs) = str_eq x a || mem a xs

unfoldable pub without : String → List String → List String
without a xs = filter_if (λ x. not (str_eq x a)) xs

abbrev pub is_empty {ℓ} : {A : Type ℓ} → List A → Bool
is_empty xs = length xs == 0

-- The table of subscribers after one of them is heard.
unfoldable pub note_sub : String → String → Dict (List String) → Dict (List String)
note_sub topic sender subs =
    let known = get_or [] topic subs in
    if mem sender known then subs else insert topic (known ++ sender ∷ []) subs

unfoldable pub note_subs : String → List String → Dict (List String) → Dict (List String)
note_subs sender [] subs = subs
note_subs sender (t ∷ ts) subs = note_subs sender ts (note_sub t sender subs)

unfoldable pub drop_sub : String → String → Dict (List String) → Dict (List String)
drop_sub topic sender subs = elim (lookup topic subs) [
  | none ↦ subs
  | some known ↦
      let rest = without sender known in
      if is_empty rest then delete topic subs else insert topic rest subs
]

module _ {ℓ} {C : Type ℓ} where
  unfoldable pub topics_of : String → Dict (Dict C) → List String
  topics_of client [] = []
  topics_of client ((t, subs) ∷ m) =
      let rest = topics_of client m in elim (lookup client subs) [ none ↦ rest | some c ↦ t ∷ rest ]

  unfoldable topic_names : Dict (Dict C) → List String
  topic_names [] = []
  topic_names ((t, subs) ∷ m) = t ∷ topic_names m

  -- The message takes the version before it is counted.
  abbrev send_versioned : (ℕ → Flood) → Node C → Node C
  send_versioned f n = record n {
    flood = f n.message_version_counter ∷ n.flood;
    message_version_counter = n.message_version_counter + 1;
  }

  abbrev pass_on : Flood → Node C → Node C
  pass_on f n = record n { flood = f ∷ n.flood }

  unfoldable pub add_local_sub : String → String → C → Node C → Node C
  add_local_sub topic client cb n = elim (lookup topic n.my_subs) [
    | some subs ↦ record n { my_subs = insert topic (insert client cb subs) n.my_subs }
    | none ↦
        send_versioned (topic_init topic)
          (record n { my_subs = insert topic (insert client cb []) n.my_subs })
  ]

  unfoldable pub remove_local_sub : String → String → Node C → Node C
  remove_local_sub topic client n = elim (lookup topic n.my_subs) [
    | none ↦ n
    | some subs ↦
        let rest = delete client subs in
        if is_empty rest
        then send_versioned (topic_exit topic) (record n { my_subs = delete topic n.my_subs })
        else record n { my_subs = insert topic rest n.my_subs }
  ]

  unfoldable pub remove_local_subs : List String → String → Node C → Node C
  remove_local_subs [] client n = n
  remove_local_subs (t ∷ ts) client n = remove_local_subs ts client (remove_local_sub t client n)

  unfoldable pub clear_sub_client : String → Node C → Node C
  clear_sub_client client n = remove_local_subs (topics_of client n.my_subs) client n

  unfoldable pub handle_topic_init : String → String → Node C → Node C
  handle_topic_init topic sender n =
      pass_on (forward_init topic sender)
        (record n { total_subs = note_sub topic sender n.total_subs })

  unfoldable pub handle_topic_exit : String → String → Node C → Node C
  handle_topic_exit topic sender n =
      pass_on (forward_exit topic sender)
        (record n { total_subs = drop_sub topic sender n.total_subs })

  unfoldable flood_all_subscriptions : Node C → Node C
  flood_all_subscriptions n =
      let topics = topic_names n.my_subs in
      if is_empty topics
      then n
      else send_versioned (topic_subscribe_flood (record { node_id = n.id; topics = topics })) n

  -- `none` is a message that cannot be decoded.
  unfoldable pub handle_subscribe_flood : Option SubscriptionInfo → Node C → Node C
  handle_subscribe_flood none n = n
  handle_subscribe_flood (some info) n =
      pass_on (forward_flood (some info))
        (record n { total_subs = note_subs info.node_id info.topics n.total_subs })

  unfoldable add_client : String → Node C → Node C
  add_client client n =
      if mem client n.client_ids then n else record n { client_ids = n.client_ids ++ client ∷ [] }

  -- The loop over the services; one without providers is removed.
  unfoldable pub without_provider : String → Dict (Dict C) → Dict (Dict C)
  without_provider client [] = []
  without_provider client ((f, providers) ∷ m) =
      let rest = without_provider client m in
      let left = delete client providers in if is_empty left then rest else (f, left) ∷ rest

  unfoldable pub unregister_rpc_services_by_client : String → Node C → Node C
  unregister_rpc_services_by_client client n = record n {
    rpc_funcs = without_provider client n.rpc_funcs;
  }

  unfoldable pub remove_client : String → Node C → Node C
  remove_client client n =
      unregister_rpc_services_by_client client
        (clear_sub_client client (record n { client_ids = without client n.client_ids }))
