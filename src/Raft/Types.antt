-- ===== src/Raft/Types.antt =====
-- core/Raft.go: roles, commands, log entries and messages. Terms and indices are int64 counters
-- that start at 0; they are numbers here, and PrevLogIndex, which may be -1, is an integer.
use majula.Prelude.{ℕ, String, Option, List, [], Bool, false}
use majula.Prelude.Int.{ℤ, pos}

pub data RaftRole : Type 0 where
  follower candidate leader : RaftRole

pub data RaftMsgType : Type 0 where
  request_vote request_vote_response append_entries append_entries_response : RaftMsgType
  client_command add_learner_msg remove_learner_msg : RaftMsgType
  other_msg : ℕ → RaftMsgType

pub data RaftOpType : Type 0 where
  put del_op add_learner remove_learner add_learner_with_snapshot : RaftOpType
  other_op : ℕ → RaftOpType

-- `interface{}` is `Option V`, and `none` is nil.
pub record RaftCommand {ℓ} (V : Type ℓ) : Type ℓ where
  pub op : RaftOpType
  pub key : String
  pub value : Option V
  pub snapshot_index : ℕ
  pub snapshot_term : ℕ

pub record RaftLogEntry {ℓ} (V : Type ℓ) : Type ℓ where
  pub index : ℕ
  pub term : ℕ
  pub command : RaftCommand V

pub record RaftPayload {ℓ} (V : Type ℓ) : Type ℓ where
  pub kind : RaftMsgType
  pub term : ℕ
  pub leader_id : String
  pub candidate_id : String
  pub sender_id : String
  pub prev_log_index : ℤ
  pub prev_log_term : ℕ
  pub entries : List (RaftLogEntry V)
  pub leader_commit : ℕ
  pub vote_granted : Bool
  pub success : Bool
  pub commit_index : ℕ
  pub last_applied : ℕ
  pub group : String
  pub conflict_term : ℕ
  pub conflict_index : ℕ
  pub invoke_id : ℕ

pub record ClientForwardPayload {ℓ} (V : Type ℓ) : Type ℓ where
  pub cmd : RaftCommand V
  pub forwarded : Bool
  pub origin_id : String

-- A message with every field at its zero value, but its kind.
abbrev pub blank {ℓ} : {V : Type ℓ} → RaftMsgType → RaftPayload V
blank k = record {
  kind = k;
  term = 0;
  leader_id = "";
  candidate_id = "";
  sender_id = "";
  prev_log_index = pos 0;
  prev_log_term = 0;
  entries = [];
  leader_commit = 0;
  vote_granted = false;
  success = false;
  commit_index = 0;
  last_applied = 0;
  group = "";
  conflict_term = 0;
  conflict_index = 0;
  invoke_id = 0;
}
