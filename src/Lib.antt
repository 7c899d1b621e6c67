-- ===== src/Lib.antt =====
-- Majula: replicated groups of nodes in Go.
--
-- Parts modelled:
-- * core/KVGroup.go, an ordered key-value store with its log: Kv (OrderedKv, put, delete, get,
--   replay_log), Kv/Index (positions in the list), Kv/Inv (index and list agree), Kv/Replay.
-- * core/Raft.go, a group member (RaftCore). Raft/Types has the commands, entries and messages;
--   Raft/Log reads and extends a log; Raft/Core has the state and what the handlers share
--   (Raft/Core/Apply applies entries; Raft/Core/Effects, Tracking and Machine are about what that
--   does); Raft/Vote the elections; Raft/Append the follower's side of replication and Raft/Commit
--   the leader's; Raft/Member dispatches messages, client requests and timers, and runs histories
--   of them. Raft/Advance has what every operation keeps of term and vote.
-- * core/Learner.go, a member that only receives the log: Learner, Learner/Stored (what storage
--   holds of the log), Learner/Apply and Learner/Ran (what it executes), Learner/Agree
--   (traditional learners), Learner/Snapshot, Learner/Again (an entry sent again to a snapshot
--   learner).
-- * core/Elect.go, the duty of a group: Elect (ElectCandidate and its handlers), Elect/Sound (one
--   turn), Elect/Life (histories), Elect/Wait and Elect/Reach (how long a candidate waits),
--   Elect/Manager (ElectManager).
-- * core/Node.go, its topics and clients: Node, Node/Subs (the table of all subscribers),
--   Node/Topics (local subscriptions and their announcements).
-- * core/Link.go and the link set of core/Node.go: Links, Links/Newer.
-- * core/Message.go and the messages of core/Node.go and core/RaftSub.go: Mesh (Message, Router),
--   Mesh/Send (sendTo, retries, the node's own messages), Mesh/Topic (core/Topic.go;
--   Mesh/Topic/Calls has the callbacks), Mesh/Publish (publications and bundles), Mesh/Receive
--   (onRecv). Mesh/Groups and its children count what is under way to a node, Mesh/Once is about
--   duplicates, Mesh/Hops about the TTL, Mesh/Collide about versions.
-- * the routing table of core/Node.go, with the queue of core/Tools.go: Routes, Routes/Fuel (the
--   search ends), Routes/Relax and Routes/Chain (its predecessors), Routes/Walk and Routes/Table
--   (next hops), Routes/Stuck.
-- * core/RPC.go, calls between nodes: Rpc, Rpc/Types, Rpc/Services (who provides what), Rpc/Calls
--   (a call and its answer), Rpc/Twice.
-- * core/RaftStorage.go, the storage of a node: Store (Storage and its operations over a LevelDb
--   and a Json), Store/Text and Store/Keys (the texts of keys), Store/Logs, Store/States,
--   Store/Load (what is read at the start).
-- * core/Channel.go, the channels of a node: Channel (peers, messages and costs), Channel/Number
--   (times as text), Channel/Cost.
-- * core/RaftManager.go with the flood of groups of core/RaftSub.go, the groups of a node:
--   Manager, Manager/Join (how a learner joins).
-- A node is modelled in views: the record Node has its topics, Router what messages need, RpcNode
-- what calls need; a field of two views stands for one field of the source. Routes makes the table
-- that Router reads from the link set of Links; onRecv hands floods and calls on as tasks, whose
-- methods are in Node, Links and Rpc. A learner shares entries, messages and effects with the Raft
-- member, whose leader sends to it.
--
-- Names are the source's in snake case: handleAppendEntries is handle_append_entries. A Go
-- statement that can panic (an index out of range) returns Outcome. An effect outside the state
-- (storage, messages, callbacks, goroutines started) is written to the field trace, the newest
-- first, in the order of the code. A method that holds the mutex to its end is one function;
-- startElection, which lets it go after the vote count is reset, is also two separate steps,
-- vote_reset and standing, and an interleaving of a member's locked sections is a list of Event.
--
-- Choices: `interface{}` is Option V, nil is none. Terms and indices are int64 counters from 0,
-- which are numbers here, integers where the code may reach -1 (PrevLogIndex, match indices). Only
-- an election adds to a term, and that sum wraps; what the comparisons then read is not modelled,
-- and the theorem on histories has terms below MaxInt64. Times and base times of Elect are the 64
-- bits of an int64 (Prelude/Int64), with sums that wrap and signed comparison. Costs and versions
-- of links are integers. The clock is an argument, read once in each method. Random numbers are
-- arguments as well. The random pivots of quickSelect are a function of the depth, and its fuel is
-- the length of the list, which is enough. A Go map is an association list, which fixes one order
-- of ranging over it. The sync.Map of learners is a list of names. The search for routes has fuel
-- for one item and for each link, and a walk back has fuel for each visited node and one more,
-- which is enough where the source returns. Versions of messages are uint64 counters that wrap,
-- TTLs are int16 counters that wrap, and costs of paths are int64 sums that wrap. What JSON
-- decodes of a payload is an argument (Codec), or a message carries it decoded.
--
-- The database of Store is an argument with the laws that LevelDB documents (IsLevelDb). JSON is
-- an argument of Store and of Rpc; a theorem that needs a text to be read back has that as a
-- hypothesis. Raft and Learner see storage as effects.
--
-- Not modelled: LevelDB and marshalling (third-party packages), retry and time-out of
-- sendWithInvokeId (one effect for one call), loading at start-up, the goroutines themselves, the
-- default services of core/RPC.go, and the other parts of the repository (FRP streams, channel
-- workers, servers, clients, examples).
pub mod Prelude
pub mod Kv
pub mod Raft
pub mod Learner
pub mod Elect
pub mod Node
pub mod Links
pub mod Mesh
pub mod Routes
pub mod Rpc
pub mod Store
pub mod Channel
pub mod Manager
