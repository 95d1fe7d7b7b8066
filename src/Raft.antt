-- ===== src/Raft.antt =====
-- src/raft: raft/types.h here; the RPC bodies, the log and the node in the modules below.
pub mod RpcCodec
pub mod Log
pub mod PeerMap
pub mod Node
use neural_kv.Prelude.{ℕ, List}
use neural_kv.Persistence.WalRecord.{WalOp, WalRecord}

pub data RaftState : Type 0 where
  follower candidate leader : RaftState

-- LogEntry has the fields of WalRecord, in their order; where the source copies one into the other
-- field by field, the model passes the value on.
abbrev pub LogEntry : Type 0
LogEntry = WalRecord

pub record PersistentState : Type 0 where
  pub current_term : ℕ
  pub voted_for : ℕ
