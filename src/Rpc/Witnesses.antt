-- ===== src/Rpc/Witnesses.antt =====
-- core/RPC.go: the theorems at two nodes and one function.
use Prim.Native.String.{◌++◌ as text_append}
use majula.Prelude.{ℕ, ◌+◌, refl, String, Bool, none, some, [], ◌∷◌, false, leb, if◌then◌else◌}
use majula.Prelude.Dict.{lookup}
use majula.Rpc.Types.{RpcNode, RpcJson, RpcRequest, RpcMessage, Callback}
use majula.Rpc.Services.{IsMap}
use majula.Rpc.Calls.{request_of}

abbrev double : Callback ℕ
double fun params from to number = some (params + params)

abbrev never : ℕ → Bool
never v = false

abbrev node : RpcNode ℕ
node = record {
  id = "n";
  invoked_id = 4;
  active_stubs = [];
  rpc_funcs = [];
  received_rpc_cache = [];
  total_rpcs = ("f", ("m", "old") ∷ []) ∷ [];
  replies = [];
  sent = [];
}

abbrev server : RpcNode ℕ
server = record node {
  id = "m";
  rpc_funcs = ("f", ("p", record { note = ""; callback = some double }) ∷ []) ∷ [];
}

abbrev call : RpcMessage (RpcRequest ℕ)
call = request_of "m" "p" "f" 3 node

-- Parameters are kept, and a result above 100 cannot be written.
abbrev json : RpcJson ℕ
json = record {
  params_back = λ v. some v;
  result_back =
      λ r. elim r [ none ↦ some none | some v ↦ if leb v 100 then some (some v) else none ];
}

total-IsMap : IsMap node.total_rpcs
unfolding IsMap lookup
total-IsMap = (refl, tt)

heard-IsMap : IsMap {A = String} (("g", "q") ∷ [])
unfolding IsMap lookup
heard-IsMap = (refl, tt)
