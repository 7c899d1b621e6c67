-- ===== src/Kv/Inv.antt =====
-- core/KVGroup.go: the map of OrderedKV is an index of its list, and each method as a map from
-- keys to values.
use majula.Prelude.{
  ℕ, zero, suc, ◌≡◌, refl, sym, String, Option, none, some, List, [], ◌∷◌, ◌++◌, length, arith,
  if◌then◌else◌, str_eq, eq_iff, inl, inr, Bool, true, false, Option-cases, drop,
}
use majula.Prelude.Dict.{lookup, insert, delete as dict_delete, lookup-insert, lookup-delete}
use majula.Prelude.Outcome.{Outcome, ok, index as elem}
use majula.Kv.{KvEntry, LogEntry, OrderedKv, new_ordered_kv, put, delete, get, reindex}
use majula.Kv.Index.{
  position, find, Distinct, update, remove, set_value-update, remove_at-remove, position-update,
  update-Distinct, find-update, find-append, position-append, append-Distinct, position-remove,
  remove-Distinct, find-remove, find_absent, lookup-reindex, drop-Distinct,
}

pub record Inv {ℓ} {V : Type ℓ} (o : OrderedKv V) : Type ℓ where
  pub synced : (k : String) → lookup k o.kv_map ≡ position k o.kv_list
  pub distinct : Distinct o.kv_list

module _ {ℓ} {V : Type ℓ} where
  pub cleared-Inv : (es : List (LogEntry V)) → Inv (record { kv_list = []; kv_map = []; log = es })
  unfolding lookup position
  cleared-Inv es = record { synced = λ k. refl; distinct = tt }

  pub new_ordered_kv-Inv : Inv (new_ordered_kv {V = V})
  unfolding new_ordered_kv
  new_ordered_kv-Inv = cleared-Inv []

  -- The entry list after Put.
  unfoldable pub put_list : String → Option V → List (KvEntry V) → List (KvEntry V)
  put_list k v l = elim (position k l) [
    | some i ↦ update k v l
    | none ↦ l ++ (record { key = k; value = v }) ∷ []
  ]

  -- The entry list after Delete.
  unfoldable pub delete_list : String → List (KvEntry V) → List (KvEntry V)
  delete_list k l = elim (position k l) [ some i ↦ remove k l | none ↦ l ]

  abbrev pub put_entry : String → Option V → ℕ → ℕ → LogEntry V
  put_entry k v t i = record { index = i; term = t; op = "put"; key = k; value = v }

  abbrev pub delete_entry : String → ℕ → ℕ → LogEntry V
  delete_entry k t i = record { index = i; term = t; op = "delete"; key = k; value = none }

  -- What a method leaves: the list, the log, and the invariant.
  pub record Leaves (o : OrderedKv V) (l : List (KvEntry V)) (e : LogEntry V)
      (r : Outcome (OrderedKv V)) : Type ℓ where
    pub after : OrderedKv V
    pub returns : r ≡ ok after
    pub list : after.kv_list ≡ l
    pub log : after.log ≡ o.log ++ e ∷ []
    pub inv : Inv after

  pub put-Leaves :
      (k : String) (v : Option V) (t i : ℕ) (o : OrderedKv V)
      → Inv o
      → Leaves o (put_list k v o.kv_list) (put_entry k v t i) (put k v t i o)
  unfolding put put_list
  put-Leaves k v t i o h = elim (Option-cases (position k o.kv_list)) [
    | inl e ↦ record {
      after = record o {
        kv_list = o.kv_list ++ (record { key = k; value = v }) ∷ [];
        kv_map = insert k (length o.kv_list) o.kv_map;
        log = o.log ++ put_entry k v t i ∷ [];
      };
      returns = rw (h.synced k, e, put);
      list = rw (e, put_list);
      log = refl;
      inv = record {
        synced = λ j.
            rw (lookup-insert k j (length o.kv_list) o.kv_map, h.synced j)
              (sym (position-append j o.kv_list (record { key = k; value = v }) e));
        distinct = append-Distinct o.kv_list (record { key = k; value = v }) e h.distinct;
      };
    }
    | inr (n, e) ↦ record {
      after = record o { kv_list = update k v o.kv_list; log = o.log ++ put_entry k v t i ∷ [] };
      returns = rw (h.synced k, e, put) (rw (set_value-update k v o.kv_list n e));
      list = rw (e, put_list);
      log = refl;
      inv = record {
        synced = λ j. rw (h.synced j, position-update k j v o.kv_list);
        distinct = update-Distinct k v o.kv_list h.distinct;
      };
    }
  ]

  pub delete-Leaves :
      (k : String) (t i : ℕ) (o : OrderedKv V)
      → Inv o
      → Leaves o (delete_list k o.kv_list) (delete_entry k t i) (delete k t i o)
  unfolding delete delete_list
  delete-Leaves k t i o h = elim (Option-cases (position k o.kv_list)) [
    | inl e ↦ record {
      after = record o { log = o.log ++ delete_entry k t i ∷ [] };
      returns = rw (h.synced k, e, delete);
      list = rw (e, delete_list);
      log = refl;
      inv = record { synced = h.synced; distinct = h.distinct };
    }
    | inr (n, e) ↦ record {
      after = record o {
        kv_list = remove k o.kv_list;
        kv_map = reindex n (drop n (remove k o.kv_list)) (dict_delete k o.kv_map);
        log = o.log ++ delete_entry k t i ∷ [];
      };
      returns = rw (h.synced k, e, delete) (rw (remove_at-remove k o.kv_list n e));
      list = rw (e, delete_list);
      log = refl;
      inv = record {
        synced = λ j. ground (
          arith,
          lookup-reindex j n (drop n (remove k o.kv_list)) (dict_delete k o.kv_map)
              (drop-Distinct n _ (remove-Distinct k o.kv_list h.distinct)),
          lookup-delete k j o.kv_map,
          h.synced j,
          position-remove k j o.kv_list n e h.distinct,
        );
        distinct = remove-Distinct k o.kv_list h.distinct;
      };
    }
  ]

  find-put_list :
      (k j : String) (v : Option V) (l : List (KvEntry V))
      → find j (put_list k v l) ≡ (if str_eq k j then some v else find j l)
  unfolding put_list
  find-put_list k j v l = elim (Option-cases (position k l)) [
    | inl e ↦ rw (e, put_list) (find-append j l (record { key = k; value = v }) e)
    | inr (i, e) ↦ rw (e, put_list) (find-update k j v l i e)
  ]

  find-delete_list :
      (k j : String) (l : List (KvEntry V))
      → Distinct l
      → find j (delete_list k l) ≡ (if str_eq k j then none else find j l)
  unfolding delete_list
  find-delete_list k j l d = elim (Option-cases (position k l)) [
    | inl e ↦ rw (e, delete_list) (ground (arith, eq_iff k j, find_absent k l e))
    | inr (i, e) ↦ rw (e, delete_list) (find-remove k j l d)
  ]

  -- What Get answers for a value that is there or not.
  abbrev pub answer : Option (Option V) → Outcome (Option V × Bool)
  answer none = ok (none, false)
  answer (some v) = ok (v, true)

  elem-position :
      (k : String) (l : List (KvEntry V)) (i : ℕ)
      → position k l ≡ some i
      → (e : KvEntry V) × (elem l i ≡ ok e) × (find k l ≡ some e.value)
  unfolding position find
  elem-position k [] i h = absurd (ground arith)
  elem-position k (e ∷ es) zero h = (e, refl, ground arith)
  elem-position k (e ∷ es) (suc i) h =
      let (x, p, q) = elem-position k es i (ground arith) in (x, p, ground arith)

  pub get-find : (k : String) (o : OrderedKv V) → Inv o → get k o ≡ answer (find k o.kv_list)
  unfolding get
  get-find k o h = elim (Option-cases (position k o.kv_list)) [
    | inl e ↦ rw (h.synced k, e, get) (rw (find_absent k o.kv_list e))
    | inr (i, e) ↦
        let (x, p, q) = elem-position k o.kv_list i e in rw (h.synced k, e, get) (rw (p, q))
  ]

  -- On a store whose map is an index of its list, Put returns such a store; the key then holds
  -- the value, and Get of every other key answers as before.
  pub get-put :
      (k : String) (v : Option V) (t i : ℕ) (o : OrderedKv V)
      → Inv o
      → (o' : OrderedKv V) × (put k v t i o ≡ ok o')
        × Inv o'
        × ((j : String) → get j o' ≡ (if str_eq k j then ok (v, true) else get j o))
  get-put k v t i o h =
      let p = put-Leaves k v t i o h in
      (
        p.after,
        p.returns,
        p.inv,
        λ j.
            rw (get-find j p.after p.inv, get-find j o h, p.list, find-put_list k j v o.kv_list)
              (ground arith),
      )

  -- On a store whose map is an index of its list, Delete returns such a store; the key is then
  -- absent, and Get of every other key answers as before.
  pub get-delete :
      (k : String) (t i : ℕ) (o : OrderedKv V)
      → Inv o
      → (o' : OrderedKv V) × (delete k t i o ≡ ok o')
        × Inv o'
        × ((j : String) → get j o' ≡ (if str_eq k j then ok (none, false) else get j o))
  get-delete k t i o h =
      let p = delete-Leaves k t i o h in
      (
        p.after,
        p.returns,
        p.inv,
        λ j.
            rw
              (
                get-find j p.after p.inv,
                get-find j o h,
                p.list,
                find-delete_list k j o.kv_list h.distinct,
              )
              (ground arith),
      )
