-- ===== src/Store/Load.antt =====
-- core/RaftStorage.go: what a node loads of a group when it starts, and the snapshot of its state.
use majula.Prelude.{
  ℕ, ◌≤◌, ◌≡◌, String, Option, none, some, List, [], ◌∷◌, if◌then◌else◌, leb, arith, str_eq_self,
  Bool-cases, inl, inr, leb→le,
}
use majula.Prelude.Outcome.{Outcome, ok, panic}
use majula.Raft.Types.{RaftLogEntry, RaftOpType}
use majula.Store.{
  LevelDb, Json, Meta, Storage, Got, got, not_found, make_key, key_in, prefix_in, with_prefix,
  write, save_meta,
}
use majula.Store.Logs.{IsLevelDb}

abbrev zero_meta : Meta
zero_meta = record { term = 0; voted_for = ""; commit_index = 0; last_applied = 0 }

abbrev zero_entry {κ} : {V : Type κ} → RaftLogEntry V
zero_entry = record {
  index = 0;
  term = 0;
  command = record {
    op = RaftOpType.put;
    key = "";
    value = none;
    snapshot_index = 0;
    snapshot_term = 0;
  };
}

module _ {κ} {V : Type κ} where
  -- sort.Slice by index; of equal indices, the later first
  unfoldable insert_sorted : RaftLogEntry V → List (RaftLogEntry V) → List (RaftLogEntry V)
  insert_sorted e [] = e ∷ []
  insert_sorted e (x ∷ xs) =
      let rest = insert_sorted e xs in if leb e.index x.index then e ∷ x ∷ xs else x ∷ rest

  -- An entry that cannot be read is the zero entry.
  unfoldable sorted_logs :
      (String → Option (RaftLogEntry V)) → List (String × String) → List (RaftLogEntry V)
  sorted_logs read_entry [] = []
  sorted_logs read_entry ((key, text) ∷ entries) =
      let rest = sorted_logs read_entry entries in
      elim (read_entry text) [
        | none ↦ insert_sorted zero_entry rest
        | some e ↦ insert_sorted e rest
      ]

  unfoldable AreAscending : ℕ → List (RaftLogEntry V) → Type 0
  AreAscending low [] = Unit
  AreAscending low (x ∷ xs) = (low ≤ x.index) × AreAscending x.index xs

  insert_sorted-AreAscending :
      (low : ℕ) (e : RaftLogEntry V) (xs : List (RaftLogEntry V))
      → low ≤ e.index
      → AreAscending low xs
      → AreAscending low (insert_sorted e xs)
  unfolding insert_sorted AreAscending
  insert_sorted-AreAscending low e [] le h = (le, tt)
  insert_sorted-AreAscending low e (x ∷ xs) le (l, h) = elim (Bool-cases (leb e.index x.index)) [
    | inl b ↦ rw b (le, (leb→le e.index x.index b, h))
    | inr b ↦ rw b (l, insert_sorted-AreAscending x.index e xs (ground arith) h)
  ]

  sorted_logs-AreAscending :
      (read_entry : String → Option (RaftLogEntry V)) (entries : List (String × String))
      → AreAscending 0 (sorted_logs read_entry entries)
  unfolding sorted_logs AreAscending
  sorted_logs-AreAscending read_entry [] = tt
  sorted_logs-AreAscending read_entry ((key, text) ∷ entries) =
      elim (read_entry text)
        as (λ found. AreAscending 0 (elim found as (λ _. List (RaftLogEntry V)) [
          | none ↦ insert_sorted zero_entry (sorted_logs read_entry entries)
          | some e ↦ insert_sorted e (sorted_logs read_entry entries)
        ])) [
          | none ↦
              insert_sorted-AreAscending 0 zero_entry (sorted_logs read_entry entries) (omega arith)
                (sorted_logs-AreAscending read_entry entries)
          | some e ↦
              insert_sorted-AreAscending 0 e (sorted_logs read_entry entries) (omega arith)
                (sorted_logs-AreAscending read_entry entries)
        ]

module _ {ℓ κ} {S : Type ℓ} {V : Type κ} (db : LevelDb S) (json : Json V) where
  unfoldable load_logs : String → Storage S → List (RaftLogEntry V)
  load_logs group s = elim s.db [
    | none ↦ []
    | some d ↦ sorted_logs json.read_entry (with_prefix (prefix_in s group "log") (db.db_entries d))
  ]

  -- Metadata that cannot be read are a nil map, whose numbers are asserted.
  unfoldable load_meta : String → Storage S → Outcome (Got Meta)
  load_meta group s = elim s.db [
    | none ↦ ok (got zero_meta)
    | some d ↦ elim (db.db_get (key_in s group "meta" "info") d) [
      | none ↦ ok not_found
      | some text ↦ elim (json.read_meta text) [ none ↦ panic | some m ↦ ok (got m) ]
    ]
  ]

  -- Metadata whose JSON can be read back are loaded as they were saved, in a store with a database.
  load_meta-save_meta :
      (law : IsLevelDb db) (group node : String) (m : Meta) (d : S)
      → json.read_meta (json.write_meta m) ≡ some m
      → load_meta group (save_meta db json group m (record { node_id = node; db = some d }))
        ≡ ok (got m)
  unfolding load_meta save_meta write
  load_meta-save_meta law group node m d back = ground (
    arith,
    law.get-put (make_key node group "meta" "info") (make_key node group "meta" "info")
        (json.write_meta m) d,
    str_eq_self (make_key node group "meta" "info"),
  )
