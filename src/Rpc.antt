-- ===== src/Rpc.antt =====
-- core/RPC.go: the services of a node, the requests that it has made and those that it answers. A
-- callback is a function of its arguments, with no result where it panics; what it does to the rest
-- of the node is not modelled. Numbers of calls are counters from 0, times are nanoseconds.
pub mod Services
pub mod Calls
pub mod Twice
pub mod Types
mod Witnesses
use Prim.Native.String.{◌++◌ as text_append}
use majula.Prelude.{
  ℕ, zero, suc, ◌+◌, String, Option, none, some, List, [], ◌∷◌, Bool, true, false, if◌then◌else◌,
  str_eq, ltb, ◌==◌,
}
use majula.Prelude.Dict.{Dict, lookup, insert, delete, get_or}
use majula.Node.{is_empty}
use majula.Mesh.Receive.{decimal}
use majula.Rpc.Types.{
  Callback, RpcFunc, RpcJson, RpcRequest, RpcResp, RpcMessage, RpcServiceInfo, RpcStub, Reply,
  Output, RpcNode, at_key, drop_key, rpc_key, fresh_keys, provided, forget_node, note_functions,
  error_map, value, request, response, service_flood, forward_flood,
}

module _ {ℓ} {V : Type ℓ} where
  abbrev pub send : Output V → RpcNode V → RpcNode V
  send out n = record n { sent = out ∷ n.sent }

  unfoldable pub flood_rpc_services : RpcNode V → RpcNode V
  flood_rpc_services n =
      send (service_flood (record { node_id = n.id; functions = provided n.rpc_funcs })) n

  -- The Boolean tells whether the call is known; a call that is not is noted.
  unfoldable pub is_duplicate_rpc : ℕ → String → ℕ → RpcNode V → Bool × RpcNode V
  is_duplicate_rpc now from invoke_id n =
      elim (lookup (rpc_key from invoke_id) n.received_rpc_cache) [
        | some time ↦ (true, n)
        | none ↦ (
          false,
          record n {
            received_rpc_cache = insert (rpc_key from invoke_id) now n.received_rpc_cache;
          },
        )
      ]

  -- One tick of startCleanRpcCacheLoop, with the time ten minutes ago.
  unfoldable pub clean_rpc_cache : ℕ → RpcNode V → RpcNode V
  clean_rpc_cache cutoff n = record n {
    received_rpc_cache = fresh_keys cutoff n.received_rpc_cache;
  }

  unfoldable pub register_rpc_service : String → String → RpcFunc V → RpcNode V → RpcNode V
  register_rpc_service fun provider f n = flood_rpc_services (record n {
    rpc_funcs = insert fun (insert provider f (get_or [] fun n.rpc_funcs)) n.rpc_funcs;
  })

  unfoldable pub unregister_rpc_service : String → String → RpcNode V → RpcNode V
  unregister_rpc_service fun provider n = elim (lookup fun n.rpc_funcs) [
    | none ↦ n
    | some providers ↦
        let left = delete provider providers in
        flood_rpc_services (record n {
          rpc_funcs = if is_empty left then delete fun n.rpc_funcs else insert fun left n.rpc_funcs;
        })
  ]

  unfoldable pub find_target_local_rpc_service :
      String → String → Dict (Dict (RpcFunc V)) → Option (RpcFunc V)
  find_target_local_rpc_service fun provider funcs = elim (lookup fun funcs) [
    | none ↦ none
    | some providers ↦ lookup provider providers
  ]

  -- A function that is found and has a callback.
  unfoldable pub find_callback : String → String → Dict (Dict (RpcFunc V)) → Option (Callback V)
  find_callback fun provider funcs = elim (find_target_local_rpc_service fun provider funcs) [
    | none ↦ none
    | some f ↦ f.callback
  ]

  abbrev response_to : RpcMessage (RpcRequest V) → RpcResp V → RpcNode V → Output V
  response_to msg resp n = response (record {
    from = n.id;
    to = msg.from;
    entity = "";
    invoke_id = msg.invoke_id;
    content = some resp;
  })

  unfoldable pub send_rpc_error_response :
      RpcMessage (RpcRequest V) → String → String → RpcNode V → RpcNode V
  send_rpc_error_response msg fun err n =
      send (response_to msg (record { fun = fun; result = none; error = err }) n) n

  unfoldable pub answer :
      RpcJson V → RpcMessage (RpcRequest V) → RpcRequest V → RpcNode V → RpcNode V
  answer json msg req n = elim (find_callback req.fun msg.entity n.rpc_funcs) [
    | none ↦ send_rpc_error_response msg req.fun "function not found or no callback registered" n
    | some callback ↦
        let result = callback req.fun req.params msg.from n.id msg.invoke_id in
        elim (json.result_back result) [
          | none ↦ send_rpc_error_response msg req.fun "internal error: response marshal failed" n
          | some back ↦
              send (response_to msg (record { fun = req.fun; result = back; error = "" }) n) n
        ]
  ]

  unfoldable pub answer_once :
      RpcJson V → Bool × RpcNode V → RpcMessage (RpcRequest V) → RpcRequest V → RpcNode V
  answer_once json (true, n) msg req =
      send_rpc_error_response msg req.fun
        (text_append "duplicate invokeId: " (decimal msg.invoke_id)) n
  answer_once json (false, n) msg req = answer json msg req n

  unfoldable pub handle_rpc_request :
      RpcJson V → ℕ → RpcMessage (RpcRequest V) → RpcNode V → RpcNode V
  handle_rpc_request json now msg n = elim msg.content [
    | none ↦ send_rpc_error_response msg "" "invalid JSON format" n
    | some req ↦ answer_once json (is_duplicate_rpc now msg.from msg.invoke_id n) msg req
  ]

  unfoldable pub reply_of : RpcResp V → RpcStub V → Reply V
  reply_of resp stub =
      if str_eq resp.error "" then value resp.result else error_map resp.error resp.fun stub.target

  -- The goroutine that waits for the stub's receiver is a reply that waits.
  unfoldable pub handle_rpc_response : RpcMessage (RpcResp V) → RpcNode V → RpcNode V
  handle_rpc_response msg n = elim msg.content [
    | none ↦ n
    | some resp ↦ elim (at_key msg.invoke_id n.active_stubs) [
      | none ↦ n
      | some stub ↦ record n { replies = (msg.invoke_id, reply_of resp stub) ∷ n.replies }
    ]
  ]

  unfoldable invoke_local_rpc : String → String → V → RpcNode V → Reply V × Bool
  invoke_local_rpc provider fun params n =
      elim (find_target_local_rpc_service fun provider n.rpc_funcs) [
        | none ↦ (error_map "function not found" "" "", false)
        | some f ↦ elim f.callback [
          | none ↦ (error_map "callback not defined" "" "", false)
          | some callback ↦ elim (callback fun params n.id n.id 0) [
            | none ↦ (error_map "internal error" "" "", true)
            | some result ↦ (value (some result), true)
          ]
        ]
      ]

  -- MakeRpcRequest up to its wait, for another node; the result is the number of the call, or none
  -- where the parameters cannot be written and the call fails.
  unfoldable pub begin_request :
      RpcJson V → String → String → String → V → RpcNode V → Option ℕ × RpcNode V
  begin_request json peer provider fun params n =
      let number = n.invoked_id + 1 in
      elim (json.params_back params) [
        | none ↦ (none, record n { invoked_id = number })
        | some back ↦ (
          some number,
          record n {
            invoked_id = number;
            active_stubs =
                (number, record { target = peer; params = params; target_fun = fun })
                ∷ n.active_stubs;
            sent =
                request (record {
                  from = n.id;
                  to = peer;
                  entity = provider;
                  invoke_id = number;
                  content = some (record { fun = fun; params = back });
                })
                ∷ n.sent;
          },
        )
      ]

  -- A result that is a map with an error in it does not count.
  unfoldable pub accept_reply : (V → Bool) → Option (Reply V) → Option V × Bool
  accept_reply is_error none = (none, false)
  accept_reply is_error (some (error_map err fun target)) = (none, false)
  accept_reply is_error (some (value none)) = (none, true)
  accept_reply is_error (some (value (some v))) =
      if is_error v then (none, false) else (some v, true)

  -- The wait, which a reply or the time-out ends, and the clean-up. The replies that still wait for
  -- the stub panic when its channel is closed, and are gone.
  unfoldable pub end_request : (V → Bool) → ℕ → RpcNode V → (Option V × Bool) × RpcNode V
  end_request is_error number n = (
    accept_reply is_error (at_key number n.replies),
    record n { active_stubs = drop_key number n.active_stubs; replies = drop_key number n.replies },
  )

  -- `none` is a flood that cannot be decoded.
  unfoldable pub handle_rpc_service_flood : Option RpcServiceInfo → RpcNode V → RpcNode V
  handle_rpc_service_flood none n = n
  handle_rpc_service_flood (some info) n = send (forward_flood info) (record n {
    total_rpcs = note_functions info.node_id info.functions (forget_node info.node_id n.total_rpcs);
  })
