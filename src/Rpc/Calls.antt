-- ===== src/Rpc/Calls.antt =====
-- core/RPC.go: a call of one node is answered by another, and the answer comes back to its caller.
use majula.Prelude.{ℕ, ◌+◌, ◌≤◌, String, Option, some, List, [], ◌∷◌}
use majula.Rpc.Types.{RpcNode, RpcRequest, RpcResp, RpcMessage, RpcStub}

module _ {ℓ} {V : Type ℓ} where
  abbrev pub request_of : String → String → String → V → RpcNode V → RpcMessage (RpcRequest V)
  request_of peer provider fun params caller = record {
    from = caller.id;
    to = peer;
    entity = provider;
    invoke_id = caller.invoked_id + 1;
    content = some (record { fun = fun; params = params });
  }

  abbrev response_of :
      String → Option V → RpcMessage (RpcRequest V) → RpcNode V → RpcMessage (RpcResp V)
  response_of fun result msg callee = record {
    from = callee.id;
    to = msg.from;
    entity = "";
    invoke_id = msg.invoke_id;
    content = some (record { fun = fun; result = result; error = "" });
  }

  -- No call has a number above the counter.
  unfoldable pub AreNumbered : ℕ → List (ℕ × RpcStub V) → Type 0
  AreNumbered top [] = Unit
  AreNumbered top ((k, stub) ∷ stubs) = (k ≤ top) × AreNumbered top stubs
