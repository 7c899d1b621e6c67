-- ===== src/Node/Topics.antt =====
-- core/Node.go: the local subscriptions of a node and what it has announced of them.
use majula.Prelude.{
  ◌≡◌, sym, subst, ◌∙◌, String, Option, none, some, List, [], ◌∷◌, Bool, true, false, if◌then◌else◌,
  str_eq, arith, eq_iff, Bool-cases, Option-cases, inl, inr,
}
use majula.Prelude.Dict.{Dict, lookup, insert, delete, lookup-insert, lookup-delete}
use majula.Node.{
  Node, Flood, topic_init, topic_exit, add_local_sub, remove_local_sub, remove_local_subs,
  topics_of, clear_sub_client, remove_client, unregister_rpc_services_by_client, is_empty, without,
  mem,
}

-- Whether the last message about a topic announced it.
unfoldable pub announced : String → List Flood → Bool
announced topic [] = false
announced topic (topic_init t v ∷ fs) =
    let rest = announced topic fs in if str_eq t topic then true else rest
announced topic (topic_exit t v ∷ fs) =
    let rest = announced topic fs in if str_eq t topic then false else rest
announced topic (f ∷ fs) = announced topic fs

abbrev is_some {ℓ} : {A : Type ℓ} → Option A → Bool
is_some none = false
is_some (some a) = true

module _ {ℓ} {C : Type ℓ} where
  -- The announced topics are those with local subscribers.
  abbrev pub IsAnnounced : Node C → Type 0
  IsAnnounced n = (topic : String) → announced topic n.flood ≡ is_some (lookup topic n.my_subs)

  -- If the topics whose last own message announced them are those with local subscribers, they
  -- are so after a new subscription.
  add_local_sub-IsAnnounced :
      (topic client : String) (cb : C) (n : Node C)
      → IsAnnounced n
      → IsAnnounced (add_local_sub topic client cb n)
  unfolding add_local_sub announced
  add_local_sub-IsAnnounced topic client cb n h t = elim (Option-cases (lookup topic n.my_subs)) [
    | inl e ↦
        ground (
          arith,
          eq_iff topic t,
          h t,
          h topic,
          lookup-insert topic t (insert client cb []) n.my_subs,
        )
    | inr (subs, e) ↦ ground (
      arith,
      eq_iff topic t,
      h t,
      h topic,
      lookup-insert topic t (insert client cb subs) n.my_subs,
    )
  ]

  -- If the topics whose last own message announced them are those with local subscribers, they
  -- are so after a subscription's end.
  remove_local_sub-IsAnnounced :
      (topic client : String) (n : Node C)
      → IsAnnounced n
      → IsAnnounced (remove_local_sub topic client n)
  unfolding remove_local_sub announced
  remove_local_sub-IsAnnounced topic client n h t = elim (Option-cases (lookup topic n.my_subs)) [
    | inl e ↦ ground (arith, h t)
    | inr (subs, e) ↦ elim (Bool-cases (is_empty (delete client subs))) [
      | inl gone ↦ ground (arith, eq_iff topic t, h t, h topic, lookup-delete topic t n.my_subs)
      | inr stays ↦ ground (
        arith,
        eq_iff topic t,
        h t,
        h topic,
        lookup-insert topic t (delete client subs) n.my_subs,
      )
    ]
  ]

  remove_local_subs-IsAnnounced :
      (topics : List String) (client : String) (n : Node C)
      → IsAnnounced n
      → IsAnnounced (remove_local_subs topics client n)
  unfolding remove_local_subs
  remove_local_subs-IsAnnounced [] client n h = h
  remove_local_subs-IsAnnounced (t ∷ ts) client n h =
      remove_local_subs-IsAnnounced ts client (remove_local_sub t client n)
        (remove_local_sub-IsAnnounced t client n h)

  -- The client has no subscription to the topic.
  abbrev pub IsFree : String → String → Node C → Type ℓ
  IsFree client topic n =
      (subs : Dict C) → lookup topic n.my_subs ≡ some subs → lookup client subs ≡ none

  remove_local_sub-IsFree :
      (t client : String) (n : Node C) → IsFree client t (remove_local_sub t client n)
  unfolding remove_local_sub
  remove_local_sub-IsFree t client n subs h = elim (Option-cases (lookup t n.my_subs)) [
    | inl e ↦ absurd (ground arith)
    | inr (old, e) ↦ elim (Bool-cases (is_empty (delete client old))) [
      | inl gone ↦ absurd (ground (arith, eq_iff t t, lookup-delete t t n.my_subs))
      | inr stays ↦ ground (
        arith,
        eq_iff t t,
        eq_iff client client,
        lookup-insert t t (delete client old) n.my_subs,
        lookup-delete client client old,
      )
    ]
  ]

  remove_local_sub-other :
      (t client topic : String) (n : Node C)
      → str_eq t topic ≡ false
      → lookup topic (remove_local_sub t client n).my_subs ≡ lookup topic n.my_subs
  unfolding remove_local_sub
  remove_local_sub-other t client topic n d = elim (Option-cases (lookup t n.my_subs)) [
    | inl e ↦ ground arith
    | inr (old, e) ↦ ground (
      arith,
      lookup-delete t topic n.my_subs,
      lookup-insert t topic (delete client old) n.my_subs,
    )
  ]

  remove_local_sub-kept :
      (t client topic : String) (n : Node C)
      → IsFree client topic n
      → IsFree client topic (remove_local_sub t client n)
  remove_local_sub-kept t client topic n f = elim (Bool-cases (str_eq t topic)) [
    | inl same ↦
        subst (λ u. IsFree client u (remove_local_sub t client n)) ((eq_iff t topic).0 same)
          (remove_local_sub-IsFree t client n)
    | inr differs ↦ λ subs h. f subs (sym (remove_local_sub-other t client topic n differs) ∙ h)
  ]

  remove_local_subs-kept :
      (ts : List String) (client topic : String) (n : Node C)
      → IsFree client topic n
      → IsFree client topic (remove_local_subs ts client n)
  unfolding remove_local_subs
  remove_local_subs-kept [] client topic n f = f
  remove_local_subs-kept (t ∷ ts) client topic n f =
      remove_local_subs-kept ts client topic (remove_local_sub t client n)
        (remove_local_sub-kept t client topic n f)

  remove_local_subs-IsFree :
      (ts : List String) (client topic : String) (n : Node C)
      → mem topic ts ≡ true
      → IsFree client topic (remove_local_subs ts client n)
  unfolding remove_local_subs mem
  remove_local_subs-IsFree [] client topic n m = absurd (cc)
  remove_local_subs-IsFree (t ∷ ts) client topic n m = elim (Bool-cases (str_eq t topic)) [
    | inl same ↦ remove_local_subs-kept ts client topic (remove_local_sub t client n) (
        subst (λ u. IsFree client u (remove_local_sub t client n)) ((eq_iff t topic).0 same)
          (remove_local_sub-IsFree t client n))
    | inr differs ↦
        remove_local_subs-IsFree ts client topic (remove_local_sub t client n) (ground arith)
  ]

  topics_of-mem :
      (client topic : String) (m : Dict (Dict C)) (subs : Dict C) (cb : C)
      → lookup topic m ≡ some subs
      → lookup client subs ≡ some cb
      → mem topic (topics_of client m) ≡ true
  unfolding topics_of mem lookup
  topics_of-mem client topic [] subs cb h c = absurd (cc)
  topics_of-mem client topic ((t, s) ∷ m) subs cb h c =
      ground (arith, eq_iff t topic, topics_of-mem client topic m subs cb)

  clear_sub_client-IsFree :
      (client topic : String) (n : Node C) → IsFree client topic (clear_sub_client client n)
  unfolding clear_sub_client
  clear_sub_client-IsFree client topic n = elim (Option-cases (lookup topic n.my_subs)) [
    | inl e ↦
        remove_local_subs-kept (topics_of client n.my_subs) client topic n (λ subs h. absurd (cc))
    | inr (old, e) ↦ elim (Option-cases (lookup client old)) [
      | inl free ↦ remove_local_subs-kept (topics_of client n.my_subs) client topic n (λ subs h. cc)
      | inr (cb, c) ↦
          remove_local_subs-IsFree (topics_of client n.my_subs) client topic n
            (topics_of-mem client topic n.my_subs old cb e c)
    ]
  ]

  -- If the topics whose last own message announced them are those with local subscribers, they
  -- are so after a client's removal, and the client has no subscription to any topic then.
  pub remove_client-IsAnnounced :
      (client : String) (n : Node C)
      → IsAnnounced n
      → IsAnnounced (remove_client client n)
        × ((topic : String) → IsFree client topic (remove_client client n))
  unfolding remove_client clear_sub_client unregister_rpc_services_by_client
  remove_client-IsAnnounced client n h =
      let left = record n { client_ids = without client n.client_ids } in
      (
        remove_local_subs-IsAnnounced (topics_of client n.my_subs) client left h,
        λ topic. clear_sub_client-IsFree client topic left,
      )
