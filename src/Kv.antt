-- ===== src/Kv.antt =====
-- core/KVGroup.go: the ordered key-value store of a group and its operation log. KVGroup adds a
-- lock round each method of OrderedKV, so its methods are these, one at a time.
pub mod Index
pub mod Inv
pub mod Replay
mod Witnesses
use majula.Prelude.{
  ℕ, zero, suc, ◌+◌, ◌≡◌, String, Option, none, some, List, [], ◌∷◌, ◌++◌, Bool, true, false,
  length, get_elem?, drop, if◌then◌else◌, str_eq,
}
use majula.Prelude.Dict.{Dict, lookup, insert, delete as dict_delete}
use majula.Prelude.Outcome.{Outcome, ok, panic, ◌>>=◌, index as elem}

-- `interface{}` is `Option V`, and `none` is nil.
pub record KvEntry {ℓ} (V : Type ℓ) : Type ℓ where
  pub key : String
  pub value : Option V

-- The source keeps the operation as text, "put" or "delete".
pub record LogEntry {ℓ} (V : Type ℓ) : Type ℓ where
  pub index : ℕ
  pub term : ℕ
  pub op : String
  pub key : String
  pub value : Option V

pub record OrderedKv {ℓ} (V : Type ℓ) : Type ℓ where
  pub kv_list : List (KvEntry V)
  pub kv_map : Dict ℕ
  pub log : List (LogEntry V)

module _ {ℓ} {V : Type ℓ} where
  unfoldable pub new_ordered_kv : OrderedKv V
  new_ordered_kv = record { kv_list = []; kv_map = []; log = [] }

  -- o.kvList[idx].Value = value
  unfoldable pub set_value : ℕ → Option V → List (KvEntry V) → Outcome (List (KvEntry V))
  set_value i v [] = panic
  set_value zero v (e ∷ es) = ok (record e { value = v } ∷ es)
  set_value (suc i) v (e ∷ es) = set_value i v es >>= λ rest. ok (e ∷ rest)

  -- append(o.kvList[:idx], o.kvList[idx+1:]...)
  unfoldable pub remove_at : ℕ → List (KvEntry V) → Outcome (List (KvEntry V))
  remove_at i [] = panic
  remove_at zero (e ∷ es) = ok es
  remove_at (suc i) (e ∷ es) = remove_at i es >>= λ rest. ok (e ∷ rest)

  -- for i := idx; i < len(o.kvList); i++ { o.kvMap[o.kvList[i].Key] = i }, on the entries from i
  unfoldable pub reindex : ℕ → List (KvEntry V) → Dict ℕ → Dict ℕ
  reindex i [] m = m
  reindex i (e ∷ es) m = reindex (suc i) es (insert e.key i m)

  unfoldable pub append_log : LogEntry V → OrderedKv V → OrderedKv V
  append_log e o = record o { log = o.log ++ e ∷ [] }

  unfoldable pub put : String → Option V → ℕ → ℕ → OrderedKv V → Outcome (OrderedKv V)
  unfolding append_log
  put key value term index o =
      (elim (lookup key o.kv_map) [
        | some idx ↦ set_value idx value o.kv_list >>= λ l. ok (record o { kv_list = l })
        | none ↦ ok (record o {
          kv_list = o.kv_list ++ (record { key = key; value = value }) ∷ [];
          kv_map = insert key (length o.kv_list) o.kv_map;
        })
      ])
      >>= λ o'. ok (
          append_log (record { index = index; term = term; op = "put"; key = key; value = value })
            o')

  unfoldable pub delete : String → ℕ → ℕ → OrderedKv V → Outcome (OrderedKv V)
  unfolding append_log
  delete key term index o =
      (elim (lookup key o.kv_map) [
        | some idx ↦ remove_at idx o.kv_list >>= λ l.
            ok (record o {
              kv_list = l;
              kv_map = reindex idx (drop idx l) (dict_delete key o.kv_map);
            })
        | none ↦ ok o
      ])
      >>= λ o'. ok (
          append_log (record { index = index; term = term; op = "delete"; key = key; value = none })
            o')

  unfoldable pub get : String → OrderedKv V → Outcome (Option V × Bool)
  get key o = elim (lookup key o.kv_map) [
    | some idx ↦ elem o.kv_list idx >>= λ e. ok (e.value, true)
    | none ↦ ok (none, false)
  ]

  -- One round of the loop of ReplayLog.
  unfoldable pub replay_entry : LogEntry V → OrderedKv V → Outcome (OrderedKv V)
  unfolding put delete
  replay_entry e o =
      if str_eq e.op "put"
      then put e.key e.value e.term e.index o
      else if str_eq e.op "delete"
      then delete e.key e.term e.index o
      else ok o

  unfoldable pub replay_entries : List (LogEntry V) → OrderedKv V → Outcome (OrderedKv V)
  unfolding replay_entry
  replay_entries [] o = ok o
  replay_entries (e ∷ es) o = replay_entry e o >>= replay_entries es

  -- The range expression o.log is evaluated once, before the loop; the rounds append to o.log.
  unfoldable pub replay_log : OrderedKv V → Outcome (OrderedKv V)
  unfolding replay_entries
  replay_log o = replay_entries o.log (record o { kv_list = []; kv_map = [] })
