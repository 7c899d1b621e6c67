-- ===== src/Store/Witnesses.antt =====
-- core/RaftStorage.go: the theorems at a database that is a dictionary, with one entry and one state.
use majula.Prelude.{◌≡◌, refl, String, none, some, [], ◌∷◌, arith}
use majula.Prelude.Dict.{lookup, insert, delete, Dict, lookup-insert, lookup-delete}
use majula.Raft.Types.{RaftLogEntry, RaftCommand, RaftOpType}
use majula.Rpc.Services.{IsMap}
use majula.Store.{
  LevelDb, Json, Storage, got, not_found, save_log, get_log, delete_logs_from, get_state,
  set_full_state, written,
}
use majula.Store.Logs.{IsLevelDb, get_log-save_log, get_log-delete_logs_from}
use majula.Store.States.{get_state-set_full_state}

abbrev dictionary : LevelDb (Dict String)
dictionary = record { db_get = lookup; db_put = insert; db_delete = delete; db_entries = λ d. d }

dictionary-IsLevelDb : IsLevelDb dictionary
dictionary-IsLevelDb = record {
  get-put = λ j k text d. lookup-insert j k text d;
  get-delete = lookup-delete;
  get-entries = λ k d. refl;
}

abbrev command : RaftCommand String
command = record {
  op = RaftOpType.put;
  key = "k";
  value = some "v";
  snapshot_index = 0;
  snapshot_term = 0;
}

abbrev entry : RaftLogEntry String
entry = record { index = 7; term = 2; command = command }

-- A JSON that knows one entry, and writes a string as it is.
abbrev json : Json String
json = record {
  write_entry = λ e. "{}";
  read_entry = λ s. some entry;
  write_meta = λ m. "{}";
  read_meta = λ s. none;
  write_value = λ s. some s;
  read_value = λ s. some s;
}

abbrev store : Storage (Dict String)
store = record { node_id = "n"; db = some [] }

get_log-save_log_example :
    get_log dictionary json "g" 7 (save_log dictionary json "g" entry store) ≡ got entry
get_log-save_log_example =
    get_log-save_log dictionary json dictionary-IsLevelDb "g" "n" entry 7 [] (omega arith)
      (omega arith) refl

abbrev filled : Dict String
filled = ("node:n:group:g:log:00000000000000000007", "{}") ∷ []

get_log-delete_logs_from_example :
    get_log dictionary json "g" 7
      (delete_logs_from dictionary json "g" 5 (record { node_id = "n"; db = some filled }))
    ≡ not_found
get_log-delete_logs_from_example =
    get_log-delete_logs_from dictionary json dictionary-IsLevelDb "g" "n" 5 7 filled (omega arith)

one_key-IsMap : IsMap {A = String} (("k", "v") ∷ [])
unfolding IsMap lookup
one_key-IsMap = (refl, tt)

get_state-set_full_state_example :
    get_state dictionary json "g" "k" (set_full_state dictionary json "g" (("k", "v") ∷ []) store)
    ≡ got "v"
unfolding lookup written
get_state-set_full_state_example =
    get_state-set_full_state dictionary json dictionary-IsLevelDb "g" "n" "k" (("k", "v") ∷ []) []
      one_key-IsMap
