-- ===== src/Learner/Snapshot.antt =====
-- core/Learner.go: handleAppendEntriesForSnapshot.
use majula.Prelude.{
  ℕ, zero, suc, ◌≡◌, ◌<◌, refl, ◌∙◌, List, [], ◌∷◌, true, length, take, get_elem?_lt, if◌then◌else◌,
  ltb, ◌==◌, arith, Bool-cases, inl, inr, ltb→lt,
}
use majula.Prelude.Outcome.{ok}
use majula.Raft.Types.{RaftLogEntry, RaftPayload}
use majula.Raft.Core.{Effect, send, delete_logs_from}
use majula.Raft.Core.Effects.{machine}
use majula.Learner.{
  RaftLearner, cut_entry, save_entry, store_at, store_entry, store_snapshot_entry,
  store_snapshot_entries, note_commit, save_progress, reply_append_entries, append_response,
  reply_index, handle_append_entries_for_snapshot,
}

abbrev higher_of : ℕ → ℕ → ℕ
higher_of a b = if ltb a b then b else a

module _ {ℓ} {V : Type ℓ} where
  -- The highest of a number and the indices of the entries past the snapshot.
  unfoldable pub highest : ℕ → ℕ → List (RaftLogEntry V) → ℕ
  highest snapshot top [] = top
  highest snapshot top (e ∷ es) =
      highest snapshot (if ltb snapshot e.index then higher_of top e.index else top) es

  -- Nothing but the log and storage of it changes.
  record Logs (lc lc' : RaftLearner V) : Type ℓ where
    snapshot_index : lc'.snapshot_index ≡ lc.snapshot_index
    commit_index : lc'.commit_index ≡ lc.commit_index
    last_applied : lc'.last_applied ≡ lc.last_applied
    machine : machine lc'.trace ≡ machine lc.trace

  Logs-trans : {a b c : RaftLearner V} → Logs a b → Logs b c → Logs a c
  Logs-trans p q = record {
    snapshot_index = q.snapshot_index ∙ p.snapshot_index;
    commit_index = q.commit_index ∙ p.commit_index;
    last_applied = q.last_applied ∙ p.last_applied;
    machine = q.machine ∙ p.machine;
  }

  Logs-refl : (lc : RaftLearner V) → Logs lc lc
  Logs-refl lc = record {
    snapshot_index = refl;
    commit_index = refl;
    last_applied = refl;
    machine = refl;
  }

  cut_entry-Logs :
      (e : RaftLogEntry V) (i : ℕ) (lc : RaftLearner V)
      → (lc' : RaftLearner V) × (cut_entry e i lc ≡ ok lc')
        × Logs lc lc'
        × (lc'.max_applied_index ≡ lc.max_applied_index)
  unfolding cut_entry machine
  cut_entry-Logs e i lc = elim (Bool-cases (ltb i (length lc.log))) [
    | inl within ↦
        let (x, at) = get_elem?_lt lc.log i (ltb→lt _ _ within) in
        elim (Bool-cases (x.term == e.term)) [
          | inl agrees ↦ (lc, rw (within, at) (rw agrees refl), Logs-refl lc, refl)
          | inr differs ↦ (
            record lc { log = take i lc.log; trace = delete_logs_from lc.group e.index ∷ lc.trace },
            rw (within, at) (rw differs refl),
            record {
              snapshot_index = refl;
              commit_index = refl;
              last_applied = refl;
              machine = refl;
            },
            refl,
          )
        ]
    | inr beyond ↦ (lc, rw beyond refl, Logs-refl lc, refl)
  ]

  save_entry-Logs :
      (e : RaftLogEntry V) (lc : RaftLearner V)
      → Logs lc (save_entry e lc) × ((save_entry e lc).max_applied_index ≡ lc.max_applied_index)
  unfolding save_entry machine
  save_entry-Logs e lc = ground arith

  store_at-Logs :
      (i : ℕ) (e : RaftLogEntry V) (lc : RaftLearner V)
      → 0 < i
      → (lc' : RaftLearner V) × (store_at i e lc ≡ ok lc')
        × Logs lc lc'
        × (lc'.max_applied_index ≡ lc.max_applied_index)
  unfolding store_at
  store_at-Logs zero e lc h = absurd (omega arith)
  store_at-Logs (suc i) e lc h =
      let (mid, a, k, m) = cut_entry-Logs e i lc in
      let (l, n) = save_entry-Logs e mid in (save_entry e mid, rw a refl, Logs-trans k l, n ∙ m)

  store_snapshot_entry-Logs :
      (e : RaftLogEntry V) (lc : RaftLearner V)
      → (lc' : RaftLearner V) × (store_snapshot_entry e lc ≡ ok lc')
        × Logs lc lc'
        × (lc'.max_applied_index ≡ (
            if ltb lc.snapshot_index e.index
            then higher_of lc.max_applied_index e.index
            else lc.max_applied_index))
  unfolding store_snapshot_entry store_entry
  store_snapshot_entry-Logs e lc = elim (Bool-cases (ltb lc.snapshot_index e.index)) [
    | inl past ↦
        let (mid, a, k, m) = store_at-Logs e.index e lc (ground arith) in
        elim (Bool-cases (ltb mid.max_applied_index e.index)) [
          | inl higher ↦ (
            record mid { max_applied_index = e.index },
            rw past (rw a (rw higher refl)),
            record {
              snapshot_index = k.snapshot_index;
              commit_index = k.commit_index;
              last_applied = k.last_applied;
              machine = k.machine;
            },
            ground (arith, past, higher, m),
          )
          | inr lower ↦ (mid, rw past (rw a (rw lower refl)), k, ground (arith, past, lower, m))
        ]
    | inr within ↦ (lc, rw within refl, Logs-refl lc, rw within refl)
  ]

  store_snapshot_entries-Logs :
      (es : List (RaftLogEntry V)) (lc : RaftLearner V)
      → (lc' : RaftLearner V) × (store_snapshot_entries es lc ≡ ok lc')
        × Logs lc lc'
        × (lc'.max_applied_index ≡ highest lc.snapshot_index lc.max_applied_index es)
  unfolding store_snapshot_entries highest
  store_snapshot_entries-Logs [] lc = (lc, refl, Logs-refl lc, refl)
  store_snapshot_entries-Logs (e ∷ es) lc =
      let (mid, a, k, m) = store_snapshot_entry-Logs e lc in
      let (lc', b, l, n) = store_snapshot_entries-Logs es mid in
      (lc', rw a b, Logs-trans k l, n ∙ rw (k.snapshot_index, m) refl)

  -- What a request leaves of a snapshot learner.
  pub record Notes (p : RaftPayload V) (lc lc' : RaftLearner V) : Type ℓ where
    pub commit_index :
        lc'.commit_index
        ≡ (if ltb lc.commit_index p.leader_commit then p.leader_commit else lc.commit_index)
    pub last_applied : lc'.last_applied ≡ lc.last_applied
    pub machine : machine lc'.trace ≡ machine lc.trace
    pub noted : lc'.max_applied_index ≡ highest lc.snapshot_index lc.max_applied_index p.entries
    pub reply : RaftPayload V
    pub before : List (Effect V)
    pub sent : lc'.trace ≡ send p.leader_id reply ∷ before
    pub success : reply.success ≡ true
    pub match_index : reply.commit_index ≡ length lc'.log
    pub applied_index :
        reply.conflict_index
        ≡ (if lc'.max_applied_index == 0 then lc.snapshot_index else lc'.max_applied_index)

  note_commit_kept :
      (c : ℕ) (lc : RaftLearner V)
      → ((note_commit c lc).commit_index ≡ (if ltb lc.commit_index c then c else lc.commit_index))
        × ((note_commit c lc).last_applied ≡ lc.last_applied)
        × (machine (note_commit c lc).trace ≡ machine lc.trace)
        × ((note_commit c lc).max_applied_index ≡ lc.max_applied_index)
        × ((note_commit c lc).snapshot_index ≡ lc.snapshot_index)
  unfolding note_commit save_progress machine
  note_commit_kept c lc = ground arith

  -- A snapshot learner accepts every request, and never panics. The highest of what it had noted
  -- and of the entries' indices past the snapshot is noted, and the commit index follows the leader,
  -- but no entry is ever applied. The reply's commit index is the length of the log, and its
  -- conflict index is the noted one, or the snapshot's if that is 0.
  pub handle_append_entries_for_snapshot-Notes :
      (p : RaftPayload V) (lc : RaftLearner V)
      → (lc' : RaftLearner V) × (handle_append_entries_for_snapshot p lc ≡ ok lc') × Notes p lc lc'
  unfolding handle_append_entries_for_snapshot reply_append_entries machine
  handle_append_entries_for_snapshot-Notes p lc =
      let (mid, a, k, r) = store_snapshot_entries-Logs p.entries lc in
      let done = note_commit p.leader_commit mid in
      let (c, l, n, x, y) = note_commit_kept p.leader_commit mid in
      (
        reply_append_entries p.leader_id true 0 (reply_index done) p.invoke_id done,
        rw a refl,
        record {
          commit_index = c ∙ rw k.commit_index refl;
          last_applied = l ∙ k.last_applied;
          machine = n ∙ k.machine;
          noted = x ∙ r;
          reply = append_response p.leader_id true 0 (reply_index done) p.invoke_id done;
          before = done.trace;
          sent = refl;
          success = refl;
          match_index = refl;
          applied_index = rw (y, k.snapshot_index) refl;
        },
      )
