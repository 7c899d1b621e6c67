-- ===== src/Rpc/Twice.antt =====
-- core/RPC.go: a call that arrives again is not carried out again, but it is answered.
use Prim.Native.String.{◌++◌ as text_append}
use majula.Prelude.{ℕ, ◌≤◌, ◌≡◌, String, Option, some, List, [], ◌∷◌, Bool}
use majula.Prelude.Dict.{Dict, lookup}
use majula.Rpc.{
  clean_rpc_cache, register_rpc_service, unregister_rpc_service, flood_rpc_services,
  handle_rpc_request, handle_rpc_response, begin_request, end_request, handle_rpc_service_flood,
}
use majula.Rpc.Types.{RpcNode, RpcJson, RpcFunc, RpcRequest, RpcResp, RpcMessage, RpcServiceInfo}

-- What happens at a node; the first number of a request is the time, that of a cleaning the time ten
-- minutes before it.
pub data RpcEvent {ℓ} (V : Type ℓ) : Type ℓ where
  requested : ℕ → RpcMessage (RpcRequest V) → RpcEvent V
  responded : RpcMessage (RpcResp V) → RpcEvent V
  cleaned : ℕ → RpcEvent V
  registered : String → String → RpcFunc V → RpcEvent V
  unregistered : String → String → RpcEvent V
  begun : String → String → String → V → RpcEvent V
  ended : ℕ → RpcEvent V
  heard : Option RpcServiceInfo → RpcEvent V
  flooded : RpcEvent V

-- No cleaning of the events reaches as far as a time.
unfoldable pub SpareAt {ℓ} : {V : Type ℓ} → ℕ → List (RpcEvent V) → Type 0
SpareAt time [] = Unit
SpareAt time (cleaned cutoff ∷ es) = (cutoff ≤ time) × SpareAt time es
SpareAt time (e ∷ es) = SpareAt time es

module _ {ℓ} {V : Type ℓ} (json : RpcJson V) (is_error : V → Bool) where
  unfoldable pub step : RpcEvent V → RpcNode V → RpcNode V
  step (requested now msg) n = handle_rpc_request json now msg n
  step (responded msg) n = handle_rpc_response msg n
  step (cleaned cutoff) n = clean_rpc_cache cutoff n
  step (registered fun provider f) n = register_rpc_service fun provider f n
  step (unregistered fun provider) n = unregister_rpc_service fun provider n
  step (begun peer provider fun params) n = (begin_request json peer provider fun params n).1
  step (ended number) n = (end_request is_error number n).1
  step (heard info) n = handle_rpc_service_flood info n
  step flooded n = flood_rpc_services n

  unfoldable pub run : List (RpcEvent V) → RpcNode V → RpcNode V
  run [] n = n
  run (e ∷ es) n = run es (step e n)

  abbrev HasKey : String → ℕ → RpcNode V → Type 0
  HasKey key time n = lookup key n.received_rpc_cache ≡ some time
