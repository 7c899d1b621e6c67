-- ===== src/Rpc/Types.antt =====
-- core/RPC.go: services, calls and messages, and the loops over their tables.
use Prim.Native.String.{◌++◌ as text_append}
use majula.Prelude.{ℕ, String, Option, none, some, List, [], ◌∷◌, if◌then◌else◌, ltb, ◌==◌}
use majula.Prelude.Dict.{Dict, insert, delete, get_or}
use majula.Node.{is_empty}
use majula.Mesh.Receive.{decimal}

-- The name, the parameters, the caller, the node that is called and the number of the call.
abbrev pub Callback {ℓ} : Type ℓ → Type ℓ
Callback V = String → V → String → String → ℕ → Option V

pub record RpcFunc {ℓ} (V : Type ℓ) : Type ℓ where
  pub note : String
  pub callback : Option (Callback V)

pub record RpcRequest {ℓ} (V : Type ℓ) : Type ℓ where
  pub fun : String
  pub params : V

-- JSON, of a standard package: what the parameters and the result of a call are where they are read
-- back, `none` where they cannot be written. A result that is nil is `none` itself.
pub record RpcJson {ℓ} (V : Type ℓ) : Type ℓ where
  pub params_back : V → Option V
  pub result_back : Option V → Option (Option V)

-- A result that is nil is `none`.
pub record RpcResp {ℓ} (V : Type ℓ) : Type ℓ where
  pub fun : String
  pub result : Option V
  pub error : String

-- A message of a call; its data is `none` where they cannot be decoded.
pub record RpcMessage {ℓ} (A : Type ℓ) : Type ℓ where
  pub from : String
  pub to : String
  pub entity : String
  pub invoke_id : ℕ
  pub content : Option A

pub record RpcServiceInfo : Type 0 where
  pub node_id : String
  pub functions : Dict String

pub record RpcStub {ℓ} (V : Type ℓ) : Type ℓ where
  pub target : String
  pub params : V
  pub target_fun : String

-- What a stub is sent: the map of an error, with the name and the target, or the result.
pub data Reply {ℓ} (V : Type ℓ) : Type ℓ where
  error_map : String → String → String → Reply V
  value : Option V → Reply V

pub data Output {ℓ} (V : Type ℓ) : Type ℓ where
  request : RpcMessage (RpcRequest V) → Output V
  response : RpcMessage (RpcResp V) → Output V
  service_flood : RpcServiceInfo → Output V
  forward_flood : RpcServiceInfo → Output V

-- What is sent is written to `sent`, the newest first. A reply that waits for its stub's receiver
-- stands in `replies`; of several for one stub the receiver takes any, here the first.
pub record RpcNode {ℓ} (V : Type ℓ) : Type ℓ where
  pub id : String
  pub invoked_id : ℕ
  pub active_stubs : List (ℕ × RpcStub V)
  pub rpc_funcs : Dict (Dict (RpcFunc V))
  pub received_rpc_cache : Dict ℕ
  pub total_rpcs : Dict (Dict String)
  pub replies : List (ℕ × Reply V)
  pub sent : List (Output V)

unfoldable pub at_key {ℓ} : {A : Type ℓ} → ℕ → List (ℕ × A) → Option A
at_key k [] = none
at_key k ((j, a) ∷ xs) = if j == k then some a else at_key k xs

unfoldable pub drop_key {ℓ} : {A : Type ℓ} → ℕ → List (ℕ × A) → List (ℕ × A)
drop_key k [] = []
drop_key k ((j, a) ∷ xs) = let rest = drop_key k xs in if j == k then rest else (j, a) ∷ rest

unfoldable pub rpc_key : String → ℕ → String
rpc_key from invoke_id = text_append from (text_append ":" (decimal invoke_id))

unfoldable pub fresh_keys : ℕ → Dict ℕ → Dict ℕ
fresh_keys cutoff [] = []
fresh_keys cutoff ((k, time) ∷ cache) =
    let rest = fresh_keys cutoff cache in if ltb time cutoff then rest else (k, time) ∷ rest

-- Of the providers of a function, the last that is met stays.
unfoldable pub last_provider {ℓ} : {A : Type ℓ} → Option String → Dict A → Option String
last_provider found [] = found
last_provider found ((provider, f) ∷ providers) = last_provider (some provider) providers

unfoldable pub provided {ℓ} : {V : Type ℓ} → Dict (Dict (RpcFunc V)) → Dict String
provided [] = []
provided ((fun, providers) ∷ funcs) =
    let rest = provided funcs in
    elim (last_provider none providers) [ none ↦ rest | some p ↦ (fun, p) ∷ rest ]

-- The loop that takes a node out of the table, and functions that no node is left for.
unfoldable pub forget_node : String → Dict (Dict String) → Dict (Dict String)
forget_node node [] = []
forget_node node ((fun, nodes) ∷ total) =
    let rest = forget_node node total in
    let left = delete node nodes in if is_empty left then rest else (fun, left) ∷ rest

unfoldable pub note_functions : String → Dict String → Dict (Dict String) → Dict (Dict String)
note_functions node [] total = total
note_functions node ((fun, provider) ∷ functions) total =
    note_functions node functions (insert fun (insert node provider (get_or [] fun total)) total)
