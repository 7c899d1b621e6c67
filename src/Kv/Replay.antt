-- ===== src/Kv/Replay.antt =====
-- core/KVGroup.go: ReplayLog rebuilds the store from its log.
use majula.Prelude.{◌≡◌, List, [], ◌∷◌, ◌++◌, if◌then◌else◌, str_eq}
use majula.Prelude.Outcome.{Outcome, ok}
use majula.Kv.{KvEntry, LogEntry, OrderedKv}
use majula.Kv.Inv.{Inv, put_list, delete_list, put_entry, delete_entry}

module _ {ℓ} {V : Type ℓ} where
  -- What one log entry does to the entry list.
  unfoldable apply_entry : LogEntry V → List (KvEntry V) → List (KvEntry V)
  apply_entry e l =
      if str_eq e.op "put"
      then put_list e.key e.value l
      else if str_eq e.op "delete"
      then delete_list e.key l
      else l

  -- What one log entry adds to the log when it is carried out.
  abbrev logged : LogEntry V → List (LogEntry V)
  logged e =
      if str_eq e.op "put"
      then put_entry e.key e.value e.term e.index ∷ []
      else if str_eq e.op "delete"
      then delete_entry e.key e.term e.index ∷ []
      else []

  unfoldable apply_entries : List (LogEntry V) → List (KvEntry V) → List (KvEntry V)
  apply_entries [] l = l
  apply_entries (e ∷ es) l = apply_entries es (apply_entry e l)

  unfoldable logged_all : List (LogEntry V) → List (LogEntry V)
  logged_all [] = []
  logged_all (e ∷ es) = logged e ++ logged_all es

  pub record Ran (o : OrderedKv V) (l : List (KvEntry V)) (es : List (LogEntry V))
      (r : Outcome (OrderedKv V)) : Type ℓ where
    pub after : OrderedKv V
    pub returns : r ≡ ok after
    pub list : after.kv_list ≡ l
    pub log : after.log ≡ o.log ++ es
    pub inv : Inv after
