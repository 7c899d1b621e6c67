-- ===== src/Store.antt =====
-- core/RaftStorage.go: how a node keeps logs, metadata and states of its groups in one LevelDB. The
-- database and JSON are third-party or standard packages: their operations are arguments, and those
-- of the database do not fail on their own. An index is a counter from 0.
pub mod Text
pub mod Keys
pub mod Logs
pub mod States
pub mod Load
mod Witnesses
use Prim.Native.String.{◌++◌ as text_append}
use majula.Prelude.{
  ℕ, zero, suc, ◌+◌, ◌-◌, ◌*◌, ◌/◌, ◌%◌, String, Option, none, some, List, [], ◌∷◌, Bool, true,
  false, if◌then◌else◌, leb, ltb, ◌==◌,
}
use majula.Prelude.Dict.{Dict, insert}
use majula.Raft.Types.{RaftLogEntry}
use majula.Store.Text.{strip_prefix, parse_int, index_key}

-- A database of type S: its operations and the pairs that an iterator over all keys meets.
pub record LevelDb {ℓ} (S : Type ℓ) : Type ℓ where
  pub db_get : String → S → Option String
  pub db_put : String → String → S → S
  pub db_delete : String → S → S
  pub db_entries : S → List (String × String)

pub record Meta : Type 0 where
  pub term : ℕ
  pub voted_for : String
  pub commit_index : ℕ
  pub last_applied : ℕ

-- JSON of entries, metadata and values; `none` is a text that cannot be read, or a value that cannot
-- be written.
pub record Json {ℓ} (V : Type ℓ) : Type ℓ where
  pub write_entry : RaftLogEntry V → String
  pub read_entry : String → Option (RaftLogEntry V)
  pub write_meta : Meta → String
  pub read_meta : String → Option Meta
  pub write_value : V → Option String
  pub read_value : String → Option V

-- data, _ := json.Marshal(value): the text is empty where the value cannot be written.
unfoldable pub written {ℓ} : {V : Type ℓ} → Json V → V → String
written json v = elim (json.write_value v) [ none ↦ "" | some text ↦ text ]

-- A result, the error of a missing database or key, or that of an unreadable text.
pub data Got {ℓ} (A : Type ℓ) : Type ℓ where
  got : A → Got A
  no_storage not_found unreadable : Got A

-- The node's identifier and the database, which a store in memory does not have.
pub record Storage {ℓ} (S : Type ℓ) : Type ℓ where
  pub node_id : String
  pub db : Option S

-- node:<node>:group:<group>:<category>:
unfoldable pub prefix_of : String → String → String → String
prefix_of node group category = text_append "node:" (
    text_append node
      (text_append ":group:" (text_append group (text_append ":" (text_append category ":")))))

unfoldable pub make_key : String → String → String → String → String
make_key node group category key = text_append (prefix_of node group category) key

-- The pairs whose key begins with a prefix, with the rest of the key.
unfoldable pub with_prefix : String → List (String × String) → List (String × String)
with_prefix p [] = []
with_prefix p ((key, text) ∷ entries) =
    let rest = with_prefix p entries in
    elim (strip_prefix p key) [ none ↦ rest | some tail ↦ (tail, text) ∷ rest ]

module _ {ℓ} {S : Type ℓ} where
  abbrev pub key_in : Storage S → String → String → String → String
  key_in s group category key = make_key s.node_id group category key

  abbrev pub prefix_in : Storage S → String → String → String
  prefix_in s group category = prefix_of s.node_id group category

  -- A write to the database, which a store in memory leaves out.
  unfoldable pub write : (S → S) → Storage S → Storage S
  write f s = elim s.db [ none ↦ s | some d ↦ record s { db = some (f d) } ]

module _ {ℓ} {S : Type ℓ} (db : LevelDb S) where
  unfoldable pub read {ℓ'} : {A : Type ℓ'} → (String → Option A) → String → Storage S → Got A
  read decode key s = elim s.db [
    | none ↦ no_storage
    | some d ↦ elim (db.db_get key d) [
      | none ↦ not_found
      | some text ↦ elim (decode text) [ none ↦ unreadable | some a ↦ got a ]
    ]
  ]

  -- The loops over an iterator; what it meets is what the database held at its start.
  unfoldable pub delete_where : (String → Bool) → String → List (String × String) → S → S
  delete_where chosen p [] d = d
  delete_where chosen p ((key, text) ∷ entries) d = elim (strip_prefix p key) [
    | none ↦ delete_where chosen p entries d
    | some tail ↦ elim (chosen tail) [
      | false ↦ delete_where chosen p entries d
      | true ↦ delete_where chosen p entries (db.db_delete key d)
    ]
  ]

module _ {ℓ κ} {S : Type ℓ} {V : Type κ} (db : LevelDb S) (json : Json V) where
  unfoldable pub save_log : String → RaftLogEntry V → Storage S → Storage S
  save_log group entry s =
      write (db.db_put (key_in s group "log" (index_key entry.index)) (json.write_entry entry)) s

  unfoldable pub get_log : String → ℕ → Storage S → Got (RaftLogEntry V)
  get_log group index s = read db json.read_entry (key_in s group "log" (index_key index)) s

  unfoldable pub delete_logs_before : String → ℕ → Storage S → Storage S
  delete_logs_before group index s =
      write
        (λ d.
          delete_where db (λ tail. ltb (parse_int tail) index) (prefix_in s group "log")
            (db.db_entries d) d)
        s

  unfoldable pub delete_logs_from : String → ℕ → Storage S → Storage S
  delete_logs_from group start_index s =
      write
        (λ d.
          delete_where db (λ tail. leb start_index (parse_int tail)) (prefix_in s group "log")
            (db.db_entries d) d)
        s

  unfoldable pub save_meta : String → Meta → Storage S → Storage S
  save_meta group m s = write (db.db_put (key_in s group "meta" "info") (json.write_meta m)) s

  unfoldable pub put_state : String → String → V → Storage S → Storage S
  put_state group key v s = write (db.db_put (key_in s group "state" key) (written json v)) s

  unfoldable pub delete_state : String → String → Storage S → Storage S
  delete_state group key s = write (db.db_delete (key_in s group "state" key)) s

  unfoldable pub get_state : String → String → Storage S → Got V
  get_state group key s = read db json.read_value (key_in s group "state" key) s

  unfoldable pub clear_state : String → Storage S → Storage S
  clear_state group s =
      write (λ d. delete_where db (λ tail. true) (prefix_in s group "state") (db.db_entries d) d) s

  unfoldable pub put_states : String → Dict V → Storage S → Storage S
  put_states group [] s = s
  put_states group ((key, v) ∷ state) s = put_states group state (put_state group key v s)

  unfoldable pub set_full_state : String → Dict V → Storage S → Storage S
  set_full_state group state s = put_states group state (clear_state group s)

  -- state[key] = value for each text that can be read
  unfoldable read_states : List (String × String) → Dict V → Dict V
  read_states [] state = state
  read_states ((key, text) ∷ entries) state = elim (json.read_value text) [
    | none ↦ read_states entries state
    | some v ↦ read_states entries (insert key v state)
  ]

  unfoldable get_full_state : String → Storage S → Got (Dict V)
  get_full_state group s = elim s.db [
    | none ↦ no_storage
    | some d ↦ got (read_states (with_prefix (prefix_in s group "state") (db.db_entries d)) [])
  ]
