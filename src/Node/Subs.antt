-- ===== src/Node/Subs.antt =====
-- core/Node.go: the table of subscribers of all nodes, as a relation between topics and nodes.
use majula.Prelude.{
  ◌≡◌, refl, ◌∙◌, String, none, some, List, [], ◌∷◌, ◌++◌, Bool, true, false, if◌then◌else◌, str_eq,
  arith, eq_iff, ◌&&◌, Bool-cases, Option-cases, inl, inr, ap,
}
use majula.Prelude.Dict.{Dict, lookup, insert, delete, get_or, lookup-insert, lookup-delete}
use majula.Node.{
  Node, mem, without, note_sub, drop_sub, handle_topic_init, handle_topic_exit, is_empty,
}

-- Whether a table has a node under a topic.
unfoldable pub lists : Dict (List String) → String → String → Bool
lists subs topic node = mem node (get_or [] topic subs)

mem-append :
    (a b : String) (xs : List String)
    → mem a (xs ++ b ∷ []) ≡ (if str_eq b a then true else mem a xs)
unfolding mem
mem-append a b [] = ground arith
mem-append a b (x ∷ xs) = ground (arith, mem-append a b xs)

mem-without :
    (a b : String) (xs : List String)
    → mem a (without b xs) ≡ (if str_eq b a then false else mem a xs)
unfolding mem without
mem-without a b [] = ground arith
mem-without a b (x ∷ xs) = ground (arith, mem-without a b xs, eq_iff x b, eq_iff x a, eq_iff b a)

get_or-insert :
    (k j : String) (v : List String) (m : Dict (List String))
    → get_or [] j (insert k v m) ≡ (if str_eq k j then v else get_or [] j m)
unfolding get_or
get_or-insert k j v m = ground (arith, lookup-insert k j v m)

get_or-delete :
    (k j : String) (m : Dict (List String))
    → get_or [] j (delete k m) ≡ (if str_eq k j then [] else get_or [] j m)
unfolding get_or
get_or-delete k j m = ground (arith, lookup-delete k j m)

-- get_or of one text at another, where the two are equal.
at_same :
    (k j : String) (m : Dict (List String)) → str_eq k j ≡ true → get_or [] k m ≡ get_or [] j m
at_same k j m e = ap (λ x. get_or [] x m) ((eq_iff k j).0 e)

lists-note_sub :
    (t s topic node : String) (subs : Dict (List String))
    → lists (note_sub t s subs) topic node
      ≡ (if str_eq t topic && str_eq s node then true else lists subs topic node)
unfolding lists note_sub
lists-note_sub t s topic node subs = elim (Bool-cases (mem s (get_or [] t subs))) [
  | inl known ↦ rw known (ground (arith, eq_iff t topic, eq_iff s node, known))
  | inr new ↦
      rw (new, get_or-insert t topic (get_or [] t subs ++ s ∷ []) subs)
        (elim (Bool-cases (str_eq t topic)) [
          | inl e ↦
              rw e
                (mem-append node s (get_or [] t subs) ∙ rw (at_same t topic subs e) (ground arith))
          | inr d ↦ rw d refl
        ])
]

empty_nil : (xs : List String) → is_empty xs ≡ true → xs ≡ []
empty_nil [] h = refl
empty_nil (x ∷ xs) h = absurd (ground arith)

get_or-some :
    (t : String) (subs : Dict (List String)) (xs : List String)
    → lookup t subs ≡ some xs
    → get_or [] t subs ≡ xs
unfolding get_or
get_or-some t subs xs h = ground arith

get_or-none :
    (t : String) (subs : Dict (List String)) → lookup t subs ≡ none → get_or [] t subs ≡ []
unfolding get_or
get_or-none t subs h = ground arith

-- The list that a removal leaves under its own topic and under others.
get_or-drop_sub :
    (t s topic : String) (subs : Dict (List String))
    → get_or [] topic (drop_sub t s subs)
      ≡ (if str_eq t topic then without s (get_or [] t subs) else get_or [] topic subs)
unfolding drop_sub without
get_or-drop_sub t s topic subs = elim (Option-cases (lookup t subs)) [
  | inl e ↦
      rw (e, drop_sub, get_or-none t subs e)
        (elim (Bool-cases (str_eq t topic)) [
          | inl same ↦ rw same (
              ap (λ x. get_or [] x subs)
                ((eq_iff topic t).0 (ground (arith, eq_iff t topic, eq_iff topic t)))
              ∙ get_or-none t subs e)
          | inr other ↦ rw other refl
        ])
  | inr (xs, e) ↦
      rw (e, drop_sub, get_or-some t subs xs e)
        (elim (Bool-cases (is_empty (without s xs))) [
          | inl gone ↦ rw (gone, get_or-delete t topic subs, empty_nil (without s xs) gone) refl
          | inr stays ↦ rw (stays, get_or-insert t topic (without s xs) subs) refl
        ])
]

lists-drop_sub :
    (t s topic node : String) (subs : Dict (List String))
    → lists (drop_sub t s subs) topic node
      ≡ (if str_eq t topic && str_eq s node then false else lists subs topic node)
unfolding lists
lists-drop_sub t s topic node subs =
    rw (get_or-drop_sub t s topic subs) (elim (Bool-cases (str_eq t topic)) [
      | inl e ↦
          rw e (mem-without node s (get_or [] t subs) ∙ rw (at_same t topic subs e) (ground arith))
      | inr d ↦ rw d refl
    ])

module _ {ℓ} {C : Type ℓ} where
  -- A topic's announcement adds its sender under the topic and changes no other pair.
  lists-handle_topic_init :
      (t s topic node : String) (n : Node C)
      → lists ((handle_topic_init t s n).total_subs) topic node
        ≡ (if str_eq t topic && str_eq s node then true else lists n.total_subs topic node)
  unfolding handle_topic_init
  lists-handle_topic_init t s topic node n = lists-note_sub t s topic node n.total_subs

  -- A topic's withdrawal removes its sender under the topic, however often it was noted there, and
  -- changes no other pair.
  lists-handle_topic_exit :
      (t s topic node : String) (n : Node C)
      → lists ((handle_topic_exit t s n).total_subs) topic node
        ≡ (if str_eq t topic && str_eq s node then false else lists n.total_subs topic node)
  unfolding handle_topic_exit
  lists-handle_topic_exit t s topic node n = lists-drop_sub t s topic node n.total_subs
