-- ===== src/Learner/Witnesses.antt =====
-- core/Learner.go: the theorems at a learner and a snapshot learner of the group g.
use majula.Prelude.{ℕ, ◌≡◌, refl, some, [], ◌∷◌, true, false, arith}
use majula.Prelude.Int.{pos}
use majula.Prelude.Outcome.{ok}
use majula.Raft.Types.{RaftLogEntry, RaftPayload, blank, put, append_entries}
use majula.Raft.Core.{save_log}
use majula.Learner.{RaftLearner, handle_append_entries, handle_append_entries_for_snapshot}
use majula.Learner.Stored.{stored, put_at, InStep}
use majula.Learner.Agree.{Answers, handle_append_entries-Answers}
use majula.Learner.Snapshot.{Notes, handle_append_entries_for_snapshot-Notes}

abbrev write : ℕ → ℕ → RaftLogEntry ℕ
write index term = record {
  index = index;
  term = term;
  command = record {
    op = put;
    key = "x";
    value = some index;
    snapshot_index = 0;
    snapshot_term = 0;
  };
}

abbrev learner : RaftLearner ℕ
learner = record {
  id = "d";
  group = "g";
  current_term = 5;
  log = write 1 1 ∷ write 2 2 ∷ [];
  commit_index = 1;
  last_applied = 1;
  leader_hint = "a";
  has_apply_callback = false;
  is_snapshot_learner = false;
  snapshot_index = 0;
  snapshot_term = 0;
  max_applied_index = 0;
  trace = save_log "g" (write 2 2) ∷ save_log "g" (write 1 1) ∷ [];
}

-- From a leader of an older term, with an entry that conflicts with the second.
abbrev call : RaftPayload ℕ
call = record (blank append_entries) {
  term = 4;
  leader_id = "b";
  prev_log_index = pos 1;
  prev_log_term = 1;
  entries = write 2 3 ∷ write 3 4 ∷ [];
  leader_commit = 3;
}

learner-InStep : InStep learner
unfolding stored put_at
learner-InStep = record { dense = (refl, (refl, tt)); same = refl }

handle_append_entries-Answers_example : Answers call learner (handle_append_entries call learner)
handle_append_entries-Answers_example =
    handle_append_entries-Answers call 1 learner refl refl (refl, (refl, tt)) learner-InStep
      (omega arith)

abbrev snapshot_learner : RaftLearner ℕ
snapshot_learner = record learner {
  log = [];
  is_snapshot_learner = true;
  snapshot_index = 10;
  trace = [];
}

abbrev snapshot_call : RaftPayload ℕ
snapshot_call = record call { entries = write 11 4 ∷ []; leader_commit = 11 }

handle_append_entries_for_snapshot-Notes_example :
    (lc' : RaftLearner ℕ) × (handle_append_entries_for_snapshot snapshot_call snapshot_learner
      ≡ ok lc')
    × Notes snapshot_call snapshot_learner lc'
handle_append_entries_for_snapshot-Notes_example =
    handle_append_entries_for_snapshot-Notes snapshot_call snapshot_learner
