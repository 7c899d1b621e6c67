-- ===== src/Raft/Append/Unchecked.antt =====
-- core/Raft.go: handleAppendEntries takes the leader's commit index up to the end of its own log,
-- not up to the last entry that the request covers.
use majula.Prelude.{ℕ, ◌≡◌, ◌≤◌, ◌<◌, ap, ◌∙◌, List, [], ◌∷◌, true, length, arith, lt→ltb}
use majula.Prelude.Int.{pos}
use majula.Prelude.Outcome.{ok}
use majula.Raft.Types.{RaftPayload}
use majula.Raft.Log.Merge.{merge, IsNumbered}
use majula.Raft.Log.Dense.{IsDense}
use majula.Raft.Core.{RaftCore, Effect, send}
use majula.Raft.Append.{handle_append_entries}
use majula.Raft.Append.Agree.{PrevAgrees, handle_append_entries-Accepts, take-append-drop}

module _ {ℓ} {V : Type ℓ} where
  -- For a request of no older term, without entries, whose previous index k is short of the end
  -- of the log and agrees there, from a leader that has committed more than this member and at
  -- least as much as its dense log holds; for a member that has applied what it has committed:
  -- every entry of the log, those after k too, is then committed, and a positive reply claims
  -- them all.
  pub handle_append_entries-unchecked :
      (now : ℕ) (p : RaftPayload V) (k : ℕ) (rc : RaftCore V)
      → rc.current_term ≤ p.term
      → p.prev_log_index ≡ pos k
      → k < length rc.log
      → PrevAgrees k p.prev_log_term rc.log
      → p.entries ≡ []
      → IsDense rc.log
      → rc.commit_index ≤ rc.last_applied
      → rc.commit_index < p.leader_commit
      → length rc.log ≤ p.leader_commit
      → (rc' : RaftCore V) × (reply : RaftPayload V) × (before : List (Effect V))
        × (handle_append_entries now p rc ≡ ok rc')
        × (rc'.log ≡ rc.log)
        × (rc'.commit_index ≡ length rc.log)
        × (rc'.trace ≡ send p.leader_id reply ∷ before)
        × (reply.success ≡ true)
        × (reply.commit_index ≡ length rc.log)
  unfolding merge
  handle_append_entries-unchecked now p k rc term q h agrees none_new d c more far =
      let num : IsNumbered k p.entries = rw none_new tt in
      let (rc', a, r) =
        handle_append_entries-Accepts now p k rc term q (omega arith) agrees num d c in
      let same : rc'.log ≡ rc.log = r.log ∙ rw none_new (take-append-drop k rc.log) in
      (
        rc',
        r.reply,
        r.before,
        a,
        same,
        r.commit_index ∙ rw (lt→ltb _ _ more) (omega (arith, ap length same)),
        r.sent,
        r.success,
        r.reply_index ∙ ap length same,
      )
