-- ===== src/Raft/Node.antt =====
-- raft/node.h and raft/node.cpp: the state of a RaftNode, what it keeps on disk, its role changes and
-- accessors. The mutex makes each locked section one step; time is a number of milliseconds.
pub mod Handlers
pub mod Leader
pub mod Driver
pub mod Terms
pub mod Sections
pub mod Votes
pub mod LeaderSections
pub mod Steps
pub mod VoteCount
pub mod Histories
pub mod Elections
pub mod Commit
pub mod MajorityIndex
pub mod Store
pub mod Follow
pub mod Apply
use neural_kv.Prelude.{
  ℕ, ◌+◌, ◌-◌, ◌/◌, ◌^◌, ◌%◌, List, [], ◌∷◌, ◌++◌, Option, none, some, Bool, true, false, not, ◌==◌,
  ltb, leb, if◌then◌else◌, length, take, drop,
}
use neural_kv.Bytes.{write_u32_be, write_u64_be, read_u32_be, read_u64_be}
use neural_kv.Status.{Status, ErrorCode, okay, error, is_ok}
use neural_kv.Result.{Result, ok, err}
use neural_kv.Cluster.{PeerInfo}
use neural_kv.Persistence.DurableStorage.{DurableStorage}
use neural_kv.Persistence.Recovery.{LogFile, absent, unreadable, present}
use neural_kv.Raft.{RaftState, LogEntry, PersistentState}
use neural_kv.Raft.Log.{Log, load, last_index}
use neural_kv.Raft.PeerMap.{PeerMap, find, assign}

-- `log_` borrows the writer of `storage_`: the node has the entries, and the writer is the storage's.
-- `state_file` is what raft/state.bin holds.
pub record RaftNode : Type 0 where
  pub state : RaftState
  pub current_term : ℕ
  pub voted_for : ℕ
  pub leader_id : ℕ
  pub commit_index : ℕ
  pub election_deadline : ℕ
  pub next_heartbeat : ℕ
  pub next_index : PeerMap
  pub match_index : PeerMap
  pub last_ack_time : PeerMap
  pub entries : List LogEntry
  pub storage : DurableStorage
  pub state_file : Option (List ℕ)

abbrev pub log_of : RaftNode → Log
log_of n = record { entries = n.entries; wal = n.storage.wal }

abbrev pub put_log : Log → RaftNode → RaftNode
put_log log n = record n { entries = log.entries; storage = record n.storage { wal = log.wal } }

abbrev pub is_leader : RaftState → Bool
is_leader RaftState.leader = true
is_leader RaftState.candidate = false
is_leader RaftState.follower = false

abbrev pub is_candidate : RaftState → Bool
is_candidate RaftState.candidate = true
is_candidate RaftState.leader = false
is_candidate RaftState.follower = false

-- The clock, and the random election timeout drawn next.
pub record Clock : Type 0 where
  pub now : ℕ
  pub timeout : ℕ

-- kHeartbeatInterval
abbrev pub heartbeat_interval : ℕ
heartbeat_interval = 75

unfoldable pub reset_election_deadline : Clock → RaftNode → RaftNode
reset_election_deadline clock n = record n { election_deadline = clock.now + clock.timeout }

-- The 12 bytes of raft/state.bin.
unfoldable pub state_bytes : PersistentState → List ℕ
state_bytes s = write_u64_be s.current_term ++ write_u32_be s.voted_for

-- PersistStateLocked: the file is not opened, or is emptied and takes the first `n` of the bytes.
pub data PersistOutcome : Type 0 where
  not_opened : PersistOutcome
  stored : ℕ → PersistOutcome

unfoldable pub persist_state : PersistOutcome → RaftNode → RaftNode
unfolding state_bytes
persist_state not_opened n = n
persist_state (stored k) n = record n {
  state_file =
      some
        (take k (state_bytes (record { current_term = n.current_term; voted_for = n.voted_for })));
}

-- LoadPersistedState on what `open` and `read` give.
unfoldable pub load_persisted_state : LogFile → Result PersistentState
load_persisted_state absent = ok (record { current_term = 0; voted_for = 0 })
load_persisted_state (unreadable why) = err (error ErrorCode.io_error why)
load_persisted_state (present file) =
    let buf = take 12 file in
    if not (length buf == 12)
    then err (error ErrorCode.io_error "raft state file truncated")
    else ok
        (record { current_term = read_u64_be (take 8 buf); voted_for = read_u32_be (drop 8 buf) })

abbrev pub file_bytes : LogFile → Option (List ℕ)
file_bytes (present file) = some file
file_bytes (unreadable why) = none
file_bytes absent = none

-- The constructor; `none` as in `scan_file`. A node whose `open_status_` is an error never starts.
unfoldable pub open_node : LogFile → LogFile → Clock → DurableStorage → Option (Result RaftNode)
unfolding reset_election_deadline
open_node state_file wal_file clock storage = elim (load_persisted_state state_file) [
  | err status ↦ some (err status)
  | ok s ↦ elim (load wal_file) [
    | none ↦ none
    | some (entries, status) ↦
        if not (is_ok status)
        then some (err status)
        else some (
            ok (
              reset_election_deadline clock (record {
                state = RaftState.follower;
                current_term = s.current_term;
                voted_for = s.voted_for;
                leader_id = 0;
                commit_index = 0;
                election_deadline = 0;
                next_heartbeat = 0;
                next_index = [];
                match_index = [];
                last_ack_time = [];
                entries = entries;
                storage = storage;
                state_file = file_bytes state_file;
              })))
  ]
]

-- BecomeFollowerLocked
unfoldable pub become_follower : ℕ → Clock → PersistOutcome → RaftNode → RaftNode
unfolding reset_election_deadline persist_state
become_follower term clock outcome n = reset_election_deadline clock (
    persist_state outcome (record n {
      current_term = term;
      voted_for = 0;
      state = RaftState.follower;
      leader_id = 0;
      last_ack_time = [];
    }))

-- The loop of BecomeLeaderLocked: `value` for every other peer.
unfoldable pub for_peers : ℕ → ℕ → List PeerInfo → PeerMap → PeerMap
for_peers local_node_id value [] m = m
for_peers local_node_id value (peer ∷ peers) m =
    let skipped = for_peers local_node_id value peers m in
    let set = for_peers local_node_id value peers (assign peer.node_id value m) in
    if peer.node_id == local_node_id then skipped else set

module _ (local_node_id : ℕ) (peers : List PeerInfo) where
  -- BecomeLeaderLocked
  unfoldable pub become_leader : ℕ → RaftNode → RaftNode
  become_leader now n = record n {
    state = RaftState.leader;
    leader_id = local_node_id;
    next_index = for_peers local_node_id (last_index n.entries + 1) peers [];
    match_index = for_peers local_node_id 0 peers [];
    last_ack_time = [];
    next_heartbeat = now;
  }

  -- replication_lag_entries
  unfoldable pub replication_lag_entries : ℕ → RaftNode → ℕ
  replication_lag_entries peer_id n =
      if peer_id == local_node_id
      then 0
      else if not (is_leader n.state)
      then 0
      else elim (find peer_id n.match_index) [
        | none ↦ 0
        | some matched ↦
            if ltb matched (last_index n.entries) then last_index n.entries - matched else 0
      ]

-- lag_entries, on unsigned 64-bit numbers
unfoldable pub lag_entries : RaftNode → ℕ
lag_entries n = (n.commit_index + 2 ^ 64 - n.storage.last_applied_index) % 2 ^ 64

-- static_cast<int>(config_.peers.size()) / 2 + 1
abbrev pub majority_of : ℕ → ℕ
majority_of size = size / 2 + 1

-- The acks of `last_ack_time_` that are no older than one heartbeat.
unfoldable pub recent_contacts : ℕ → PeerMap → ℕ
recent_contacts now [] = 0
recent_contacts now ((id, at) ∷ m) =
    let rest = recent_contacts now m in if leb (now - at) heartbeat_interval then 1 + rest else rest

-- HasRecentMajorityContactLocked
unfoldable pub has_recent_majority_contact : List PeerInfo → ℕ → RaftNode → Bool
has_recent_majority_contact peers now n =
    if not (is_leader n.state)
    then false
    else leb (majority_of (length peers)) (1 + recent_contacts now n.last_ack_time)
