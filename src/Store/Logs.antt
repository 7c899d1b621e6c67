-- ===== src/Store/Logs.antt =====
-- core/RaftStorage.go: what the reads of a log give after the writes and the deletions.
use majula.Prelude.{
  ℕ, ◌^◌, ◌<◌, ◌≡◌, String, Option, none, some, List, [], ◌∷◌, Bool, true, false, if◌then◌else◌,
  ltb, leb, arith, str_eq, eq_iff, ◌==◌, Bool-cases, Option-cases, inl, inr,
}
use majula.Prelude.Dict.{lookup}
use majula.Raft.Types.{RaftLogEntry}
use majula.Store.Text.{index_key, parse_int, strip_prefix}
use majula.Store.{
  LevelDb, Json, got, not_found, prefix_of, make_key, write, read, save_log, get_log, delete_where,
  delete_logs_from, delete_logs_before,
}
use majula.Store.Keys.{strip_prefix-append, parse_int-index_key, append-same, index_key-same}

-- What LevelDB documents of Get, Put, Delete and of an iterator over all keys.
pub record IsLevelDb {ℓ} {S : Type ℓ} (db : LevelDb S) : Type ℓ where
  pub get-put :
      (j k text : String) (d : S)
      → db.db_get k (db.db_put j text d) ≡ (if str_eq j k then some text else db.db_get k d)
  pub get-delete :
      (j k : String) (d : S)
      → db.db_get k (db.db_delete j d) ≡ (if str_eq j k then none else db.db_get k d)
  pub get-entries : (k : String) (d : S) → lookup k (db.db_entries d) ≡ db.db_get k d

abbrev selects : (String → Bool) → Option String → Bool
selects chosen none = false
selects chosen (some tail) = chosen tail

abbrev is_known : Option String → Bool
is_known none = false
is_known (some text) = true

module _ {ℓ} {S : Type ℓ} (db : LevelDb S) (law : IsLevelDb db) where
  get-delete_where :
      (chosen : String → Bool) (p k : String) (entries : List (String × String)) (d : S)
      → db.db_get k (delete_where db chosen p entries d) ≡ (
          if selects chosen (strip_prefix p k)
          then (if is_known (lookup k entries) then none else db.db_get k d)
          else db.db_get k d)
  unfolding delete_where lookup
  get-delete_where chosen p k [] d = ground arith
  get-delete_where chosen p k ((key, text) ∷ entries) d = elim (Option-cases (strip_prefix p key)) [
    | inl e ↦ ground (arith, get-delete_where chosen p k entries d, eq_iff key k)
    | inr (tail, e) ↦ elim (Bool-cases (chosen tail)) [
      | inr stays ↦ ground (arith, get-delete_where chosen p k entries d, eq_iff key k)
      | inl gone ↦ ground (
        arith,
        get-delete_where chosen p k entries (db.db_delete key d),
        law.get-delete key k d,
        eq_iff key k,
      )
    ]
  ]

  -- After a loop over what the database held, the chosen keys are gone.
  pub get-delete_all :
      (chosen : String → Bool) (p k : String) (d : S)
      → db.db_get k (delete_where db chosen p (db.db_entries d) d)
        ≡ (if selects chosen (strip_prefix p k) then none else db.db_get k d)
  get-delete_all chosen p k d =
      ground (arith, get-delete_where chosen p k (db.db_entries d) d, law.get-entries k d)

module _ {ℓ κ} {S : Type ℓ} {V : Type κ} (db : LevelDb S) (json : Json V) (law : IsLevelDb db) where
  -- In a store with a database, an entry whose JSON can be read back is found at its index once it was
  -- saved, and what is read at every other index is as before; indices have at most twenty digits.
  pub get_log-save_log :
      (group node : String) (entry : RaftLogEntry V) (i : ℕ) (d : S)
      → entry.index < 10 ^ 20
      → i < 10 ^ 20
      → json.read_entry (json.write_entry entry) ≡ some entry
      → get_log db json group i
          (save_log db json group entry (record { node_id = node; db = some d }))
        ≡ (if entry.index == i
            then got entry
            else get_log db json group i (record { node_id = node; db = some d }))
  unfolding get_log save_log read write make_key
  get_log-save_log group node entry i d he hi back = ground (
    arith,
    law.get-put (make_key node group "log" (index_key entry.index))
        (make_key node group "log" (index_key i)) (json.write_entry entry) d,
    append-same (prefix_of node group "log") (index_key entry.index) (index_key i),
    index_key-same entry.index i he hi,
  )

  -- In a store with a database, no entry from the start index on is found after they were deleted,
  -- and what is read at every index before it is as it was; indices have at most twenty digits.
  pub get_log-delete_logs_from :
      (group node : String) (start i : ℕ) (d : S)
      → i < 10 ^ 20
      → get_log db json group i
          (delete_logs_from db json group start (record { node_id = node; db = some d }))
        ≡ (if leb start i
            then not_found
            else get_log db json group i (record { node_id = node; db = some d }))
  unfolding get_log delete_logs_from read write make_key
  get_log-delete_logs_from group node start i d hi = ground (
    arith,
    get-delete_all db law (λ tail. leb start (parse_int tail)) (prefix_of node group "log")
        (make_key node group "log" (index_key i)) d,
    strip_prefix-append (prefix_of node group "log") (index_key i),
    parse_int-index_key i hi,
  )

  -- In a store with a database, no entry before the index is found after they were deleted, and
  -- what is read at every other index is as it was; indices have at most twenty digits.
  get_log-delete_logs_before :
      (group node : String) (index i : ℕ) (d : S)
      → i < 10 ^ 20
      → get_log db json group i
          (delete_logs_before db json group index (record { node_id = node; db = some d }))
        ≡ (if ltb i index
            then not_found
            else get_log db json group i (record { node_id = node; db = some d }))
  unfolding get_log delete_logs_before read write make_key
  get_log-delete_logs_before group node index i d hi = ground (
    arith,
    get-delete_all db law (λ tail. ltb (parse_int tail) index) (prefix_of node group "log")
        (make_key node group "log" (index_key i)) d,
    strip_prefix-append (prefix_of node group "log") (index_key i),
    parse_int-index_key i hi,
  )
