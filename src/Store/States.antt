-- ===== src/Store/States.antt =====
-- core/RaftStorage.go: what the reads of a group's state give after it was replaced.
use majula.Prelude.{
  ◌≡◌, refl, ap, ◌∙◌, String, Option, none, some, [], ◌∷◌, true, if◌then◌else◌, arith, str_eq,
  eq_iff,
}
use majula.Prelude.Dict.{Dict, lookup}
use majula.Rpc.Services.{IsMap}
use majula.Store.{
  LevelDb, Json, Got, got, not_found, unreadable, written, prefix_of, make_key, write, read,
  put_state, get_state, delete_where, clear_state, put_states, set_full_state,
}
use majula.Store.Keys.{strip_prefix-append, append-same}
use majula.Store.Logs.{IsLevelDb, get-delete_all}

-- What a value is where its text is read back.
abbrev pub read_back {ℓ} : {V : Type ℓ} → Json V → V → Got V
read_back json v = elim (json.read_value (written json v)) [ none ↦ unreadable | some w ↦ got w ]

abbrev found_or {ℓ} : {V : Type ℓ} → Json V → Got V → Option V → Got V
found_or json old none = old
found_or json old (some v) = read_back json v

module _ {ℓ κ} {S : Type ℓ} {V : Type κ} (db : LevelDb S) (json : Json V) (law : IsLevelDb db) where
  get_state-put_state :
      (group node key other : String) (v : V) (d : S)
      → get_state db json group other
          (put_state db json group key v (record { node_id = node; db = some d }))
        ≡ (if str_eq key other
            then read_back json v
            else get_state db json group other (record { node_id = node; db = some d }))
  unfolding get_state put_state read write make_key
  get_state-put_state group node key other v d = ground (
    arith,
    law.get-put (make_key node group "state" key) (make_key node group "state" other)
        (written json v) d,
    append-same (prefix_of node group "state") key other,
  )

  get_state-clear_state :
      (group node key : String) (d : S)
      → get_state db json group key
          (clear_state db json group (record { node_id = node; db = some d }))
        ≡ not_found
  unfolding get_state clear_state read write make_key
  get_state-clear_state group node key d = ground (
    arith,
    get-delete_all db law (λ tail. true) (prefix_of node group "state")
        (make_key node group "state" key) d,
    strip_prefix-append (prefix_of node group "state") key,
  )

  get_state-put_states :
      (group node key : String) (state : Dict V) (d : S)
      → IsMap state
      → get_state db json group key
          (put_states db json group state (record { node_id = node; db = some d }))
        ≡ found_or json
            (get_state db json group key (record { node_id = node; db = some d }))
            (lookup key state)
  unfolding put_states put_state write IsMap lookup
  get_state-put_states group node key [] d h = refl
  get_state-put_states group node key ((k, v) ∷ state) d h = ground (
    arith,
    get_state-put_states group node key state
        (db.db_put (make_key node group "state" k) (written json v) d) h.1,
    get_state-put_state group node k key v d,
    eq_iff k key,
  )

  -- In a store with a database that does what LevelDB documents, after a group's state was replaced
  -- by a map, where no key stands twice, a read of a key of the map gives what the JSON of its value
  -- reads back as (an empty text where there is none), or the error of one that cannot be read, and
  -- no other key of the group is found.
  pub get_state-set_full_state :
      (group node key : String) (state : Dict V) (d : S)
      → IsMap state
      → get_state db json group key
          (set_full_state db json group state (record { node_id = node; db = some d }))
        ≡ found_or json not_found (lookup key state)
  unfolding set_full_state clear_state write
  get_state-set_full_state group node key state d h =
      get_state-put_states group node key state
        (delete_where db (λ tail. true) (prefix_of node group "state") (db.db_entries d) d) h
      ∙ ap (λ old. found_or json old (lookup key state)) (get_state-clear_state group node key d)
