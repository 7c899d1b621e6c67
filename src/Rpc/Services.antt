-- ===== src/Rpc/Services.antt =====
-- core/RPC.go: the table of the services of a node, and that of the services of all nodes.
use majula.Prelude.{
  ◌≡◌, refl, String, Option, none, some, [], ◌∷◌, true, if◌then◌else◌, str_eq, eq_iff, arith,
  Option-cases, Bool-cases, inl, inr, ◌&&◌,
}
use majula.Prelude.Dict.{Dict, lookup, insert, delete, get_or, lookup-insert, lookup-delete}
use majula.Node.{is_empty}
use majula.Rpc.{
  register_rpc_service, unregister_rpc_service, find_target_local_rpc_service, flood_rpc_services,
  handle_rpc_service_flood,
}
use majula.Rpc.Types.{RpcNode, RpcFunc, RpcServiceInfo, forget_node, note_functions}

module _ {ℓ} {A : Type ℓ} where
  -- What a table of tables has under two keys.
  unfoldable find_in : String → String → Dict (Dict A) → Option A
  find_in a b table = elim (lookup a table) [ none ↦ none | some inner ↦ lookup b inner ]

  find_in-insert :
      (a b c d : String) (new : A) (table : Dict (Dict A))
      → find_in c d (insert a (insert b new (get_or [] a table)) table)
        ≡ (if str_eq a c && str_eq b d then some new else find_in c d table)
  unfolding find_in get_or lookup
  find_in-insert a b c d new table = elim (Option-cases (lookup a table)) [
    | inl e ↦ ground (
      arith,
      lookup-insert a c (insert b new []) table,
      lookup-insert b d new [],
      eq_iff a c,
      eq_iff b d,
    )
    | inr (inner, e) ↦ ground (
      arith,
      lookup-insert a c (insert b new inner) table,
      lookup-insert b d new inner,
      eq_iff a c,
      eq_iff b d,
    )
  ]

  empty-lookup : (b : String) (inner : Dict A) → is_empty inner ≡ true → lookup b inner ≡ none
  unfolding lookup
  empty-lookup b [] h = refl
  empty-lookup b (x ∷ inner) h = absurd (ground arith)

module _ {ℓ} {V : Type ℓ} where
  -- After a registration the function is found with its provider, and every other as before.
  find_target_local_rpc_service-register :
      (fun provider other who : String) (f : RpcFunc V) (n : RpcNode V)
      → find_target_local_rpc_service other who (register_rpc_service fun provider f n).rpc_funcs
        ≡ (if str_eq fun other && str_eq provider who
            then some f
            else find_target_local_rpc_service other who n.rpc_funcs)
  unfolding find_target_local_rpc_service register_rpc_service flood_rpc_services find_in
  find_target_local_rpc_service-register fun provider other who f n =
      find_in-insert fun provider other who f n.rpc_funcs

  -- After its withdrawal the function is not found with its provider, and every other as before.
  find_target_local_rpc_service-unregister :
      (fun provider other who : String) (n : RpcNode V)
      → find_target_local_rpc_service other who (unregister_rpc_service fun provider n).rpc_funcs
        ≡ (if str_eq fun other && str_eq provider who
            then none
            else find_target_local_rpc_service other who n.rpc_funcs)
  unfolding find_target_local_rpc_service unregister_rpc_service flood_rpc_services
  find_target_local_rpc_service-unregister fun provider other who n =
      elim (Option-cases (lookup fun n.rpc_funcs)) [
        | inl e ↦ ground (arith, eq_iff fun other)
        | inr (providers, e) ↦ elim (Bool-cases (is_empty (delete provider providers))) [
          | inl gone ↦ ground (
            arith,
            eq_iff fun other,
            eq_iff provider who,
            lookup-delete fun other n.rpc_funcs,
            lookup-delete provider who providers,
            empty-lookup who (delete provider providers) gone,
          )
          | inr stays ↦ ground (
            arith,
            eq_iff fun other,
            eq_iff provider who,
            lookup-insert fun other (delete provider providers) n.rpc_funcs,
            lookup-delete provider who providers,
          )
        ]
      ]

-- No key stands twice, as in every map of Go.
unfoldable pub IsMap {ℓ} : {A : Type ℓ} → Dict A → Type ℓ
IsMap [] = Unit
IsMap ((k, a) ∷ table) = (lookup k table ≡ none) × IsMap table

forget_node-missing :
    (node fun : String) (total : Dict (Dict String))
    → lookup fun total ≡ none
    → lookup fun (forget_node node total) ≡ none
unfolding lookup forget_node
forget_node-missing node fun [] h = refl
forget_node-missing node fun ((k, nodes) ∷ total) h =
    ground (arith, forget_node-missing node fun total)

find_in-forget_node :
    (node fun who : String) (total : Dict (Dict String))
    → IsMap total
    → find_in fun who (forget_node node total)
      ≡ (if str_eq node who then none else find_in fun who total)
unfolding find_in lookup forget_node IsMap
find_in-forget_node node fun who [] h = ground arith
find_in-forget_node node fun who ((k, nodes) ∷ total) h =
    elim (Bool-cases (is_empty (delete node nodes))) [
      | inl gone ↦ ground (
        arith,
        find_in-forget_node node fun who total h.1,
        forget_node-missing node k total h.0,
        eq_iff k fun,
        lookup-delete node who nodes,
        empty-lookup who (delete node nodes) gone,
      )
      | inr stays ↦ ground (
        arith,
        find_in-forget_node node fun who total h.1,
        eq_iff k fun,
        lookup-delete node who nodes,
      )
    ]

abbrev or_known : Option String → Option String → Option String
or_known none known = known
or_known (some p) known = some p

find_in-note_functions :
    (node fun who : String) (functions : Dict String) (total : Dict (Dict String))
    → IsMap functions
    → find_in fun who (note_functions node functions total) ≡ (
        if str_eq node who
        then or_known (lookup fun functions) (find_in fun who total)
        else find_in fun who total)
unfolding lookup note_functions IsMap
find_in-note_functions node fun who [] total h = ground arith
find_in-note_functions node fun who ((k, p) ∷ functions) total h = ground (
  arith,
  find_in-note_functions node fun who functions (insert k (insert node p (get_or [] k total)) total)
      h.1,
  find_in-insert k node fun who p total,
  eq_iff k fun,
  eq_iff node who,
)

-- After a node's services are heard, where the table and what is heard have no key twice, that node
-- provides each function just as it says and provides no other, and all other nodes provide what they
-- did.
find_in-handle_rpc_service_flood {ℓ} :
    {V : Type ℓ} (info : RpcServiceInfo) (fun who : String) (n : RpcNode V)
    → IsMap n.total_rpcs
    → IsMap info.functions
    → find_in fun who (handle_rpc_service_flood (some info) n).total_rpcs ≡ (
        if str_eq info.node_id who then lookup fun info.functions else find_in fun who n.total_rpcs)
unfolding handle_rpc_service_flood
find_in-handle_rpc_service_flood info fun who n t f = ground (
  arith,
  find_in-note_functions info.node_id fun who info.functions (forget_node info.node_id n.total_rpcs)
      f,
  find_in-forget_node info.node_id fun who n.total_rpcs t,
  Option-cases (lookup fun info.functions),
)
