-- ===== src/Tests/Consensus.antt =====
-- The Raft log and node, at a sample node.
use neural_kv.Prelude.{
  ℕ, ◌+◌, ◌≤◌, ◌<◌, ◌⊎◌, [], ◌∷◌, ◌++◌, ◌≡◌, refl, some, true, arith, take, get_elem?,
}
use neural_kv.Status.{okay}
use neural_kv.Result.{ok}
use neural_kv.Storage.ShardedKv
use neural_kv.Storage.Dict.{find}
use neural_kv.Storage.ShardedKv.View.{view, empty-IsWellFormed}
use neural_kv.Persistence.WalRecord.{WalOp, IsValidRecord}
use neural_kv.Persistence.WalWriter.{written, succeeds}
use neural_kv.Persistence.WalWriter.Invariant.{numbered_record}
use neural_kv.Persistence.WalWriter.Rewrite.{all_succeed}
use neural_kv.Persistence.Replay.{encode_all}
use neural_kv.Persistence.Recovery.{present}
use neural_kv.Persistence.Recovery.View.{spec_replay}
use neural_kv.Persistence.DurableStorage.{DurableStorage}
use neural_kv.Raft.{RaftState, LogEntry}
use neural_kv.Raft.Log.{load, append, truncate_from, get}
use neural_kv.Raft.Log.Laws.{InStep, load-encode_all, append-InStep, truncate_from-InStep}
use neural_kv.Raft.RpcCodec.{RequestVoteRequest, AppendEntriesRequest}
use neural_kv.Raft.Node.{
  RaftNode, Clock, state_bytes, log_of, become_follower, persist_state, reset_election_deadline,
}
use neural_kv.Raft.Node.Handlers.{
  handle_request_vote, handle_append_entries, apply_committed_entries, step_down_if_behind,
  grant_vote, prev_matches, recognize_leader,
}
use neural_kv.Raft.Node.Leader.{advance_commit_index}
use neural_kv.Raft.Node.Terms.{IsSaved, Later, load-state_bytes}
use neural_kv.Raft.Node.Sections.{whole}
use neural_kv.Raft.Node.Steps.{Step, Run, healthy, run-IsSaved, vote_once}
use neural_kv.Raft.Node.Store.{HasTerm, smooth}
use neural_kv.Raft.Node.Follow.{handle_append_entries-agrees}
use neural_kv.Raft.Node.MajorityIndex.{Highest}
use neural_kv.Raft.Node.Commit.{HasCurrent, advance_commit_index-majority}
use neural_kv.Raft.Node.Apply.{Applied, apply_committed_entries-Applied}
use neural_kv.Tests.{
  set_record, delete_record, two_records, two_records_held, two_records_valid, writer_of, by_length,
}

abbrev storage : DurableStorage
storage = record { kv = ShardedKv.empty; wal = writer_of two_records; last_applied_index = 0 }

-- A node of term 3 with two entries that it has not applied.
abbrev node_of : RaftState → RaftNode
node_of state = record {
  state = state;
  current_term = 3;
  voted_for = 0;
  leader_id = 0;
  commit_index = 2;
  election_deadline = 0;
  next_heartbeat = 0;
  next_index = [];
  match_index = (2, 2) ∷ (3, 0) ∷ [];
  last_ack_time = [];
  entries = two_records;
  storage = storage;
  state_file = some (state_bytes (record { current_term = 3; voted_for = 0 }));
}

abbrev pub node : RaftNode
node = node_of RaftState.follower

pub node-IsSaved : IsSaved node
node-IsSaved = record {
  term_fits = omega arith;
  vote_fits = omega arith;
  on_disk =
      load-state_bytes (record { current_term = 3; voted_for = 0 }) (omega arith) (omega arith);
}

abbrev pub clock : Clock
clock = record { now = 100; timeout = 300 }

abbrev vote_request : RequestVoteRequest
vote_request = record { term = 5; candidate_id = 2; last_log_index = 7; last_log_term = 4 }

granted : (handle_request_vote vote_request (healthy clock) node).0.vote_granted ≡ true
unfolding handle_request_vote step_down_if_behind become_follower persist_state
    reset_election_deadline grant_vote
granted = refl

abbrev voted : RaftNode
voted = (handle_request_vote vote_request (healthy clock) node).1

abbrev quiet : RaftNode
quiet = record voted { next_heartbeat = 9 }

quiet_run : Run by_length 1 [] voted quiet
quiet_run = Run.then (Step.heartbeat_due 9) Run.done

granted_again : (handle_request_vote vote_request (healthy clock) quiet).0.vote_granted ≡ true
unfolding handle_request_vote step_down_if_behind become_follower persist_state
    reset_election_deadline grant_vote
granted_again = refl

terms_agree :
    (handle_request_vote vote_request (healthy clock) quiet).0.term
    ≡ (handle_request_vote vote_request (healthy clock) node).0.term
unfolding handle_request_vote step_down_if_behind become_follower persist_state
    reset_election_deadline grant_vote
terms_agree = refl

vote_once_example : vote_request.candidate_id ≡ 2
vote_once_example =
    vote_once by_length 1 [] node quiet vote_request vote_request clock clock node-IsSaved
      (omega arith) (omega arith) (λ e. absurd (omega (arith, e))) granted quiet_run granted_again
      terms_agree

abbrev voted_run : Run by_length 1 [] node voted
voted_run = Run.then (Step.vote_requested vote_request clock (omega arith) (omega arith)) Run.done

run-IsSaved_example : IsSaved voted × Later node voted
run-IsSaved_example = run-IsSaved by_length 1 [] voted_run node-IsSaved

log-InStep : InStep (log_of node)
log-InStep = record { on_disk = two_records_held; idle = refl }

load-encode_all_example : load (present (encode_all two_records)) ≡ some (two_records, okay)
load-encode_all_example = load-encode_all two_records two_records_valid

abbrev next_entry : LogEntry
next_entry = record { term = 3; index = 0; op = WalOp.delete; key = 107 ∷ []; value = [] }

next_entry_valid : IsValidRecord (numbered_record 2 next_entry)
next_entry_valid = record {
  term_fits = omega arith;
  index_fits = omega arith;
  key_there = refl;
  key_fits = omega arith;
  value_there = λ e. cc;
  value_fits = omega arith;
}

append-InStep_example :
    let out =
      append next_entry
        (record { write = written; wake = writer_of []; ticks = []; flush = succeeds })
        (log_of node) in
    (out.0 ≡ ok (numbered_record 2 next_entry))
    × (out.1.entries ≡ two_records ++ (numbered_record 2 next_entry ∷ []))
    × InStep out.1
append-InStep_example =
    append-InStep (log_of node) log-InStep next_entry (writer_of []) next_entry_valid

truncate_from-InStep_example :
    let out = truncate_from 2 all_succeed (log_of node) in
    (out.0 ≡ okay) × (out.1.entries ≡ set_record ∷ []) × InStep out.1
truncate_from-InStep_example = truncate_from-InStep (log_of node) log-InStep 2 (omega arith)

-- The entry at index 2 has another term than the log's: a conflict.
abbrev entries_request : AppendEntriesRequest
entries_request = record {
  term = 4;
  leader_id = 2;
  prev_log_index = 1;
  prev_log_term = 1;
  leader_commit = 0;
  entries = record delete_record { term = 4 } ∷ [];
}

entries_valid : IsValidRecord (record delete_record { term = 4 })
entries_valid = record {
  term_fits = omega arith;
  index_fits = omega arith;
  key_there = refl;
  key_fits = omega arith;
  value_there = λ e. cc;
  value_fits = omega arith;
}

entries_taken :
    (handle_append_entries by_length entries_request
      (smooth (writer_of []) clock whole)
      node).0.success
    ≡ true
unfolding handle_append_entries recognize_leader become_follower persist_state
    reset_election_deadline prev_matches get
entries_taken = refl

handle_append_entries-agrees_example :
    let out =
      handle_append_entries by_length entries_request (smooth (writer_of []) clock whole) node in
    InStep (log_of out.1)
    × ((k : ℕ) (e : LogEntry)
        → get_elem? entries_request.entries k ≡ some e
        → HasTerm (1 + 1 + k) e.term out.1.entries)
    × (take 1 out.1.entries ≡ set_record ∷ [])
    × ((entries_request.prev_log_index ≡ 0) ⊎ HasTerm 1 1 two_records)
handle_append_entries-agrees_example =
    handle_append_entries-agrees by_length entries_request (writer_of []) clock whole node
      log-InStep (entries_valid, tt) (omega arith) entries_taken

abbrev leader : RaftNode
leader = record (node_of RaftState.leader) { commit_index = 0; current_term = 2 }

advance_commit_index-majority_example :
    let n' = advance_commit_index by_length leader in
    (candidate : ℕ) × Highest leader candidate
    × (((0 < candidate) × HasCurrent leader candidate × (n'.commit_index ≡ candidate))
        ⊎ ((n'.commit_index ≡ 0) × ((candidate ≤ 0) ⊎ ¬ (HasCurrent leader candidate))))
advance_commit_index-majority_example = advance_commit_index-majority by_length leader

nothing-Applied : Applied by_length two_records storage
unfolding view find spec_replay
nothing-Applied = record { map_formed = empty-IsWellFormed; shows = λ j. refl }

apply_committed_entries-Applied_example :
    ((apply_committed_entries by_length node).storage.last_applied_index ≡ 2)
    × Applied by_length two_records (apply_committed_entries by_length node).storage
apply_committed_entries-Applied_example =
    apply_committed_entries-Applied by_length node (refl, (refl, tt)) two_records_valid
      (omega arith) (omega arith) nothing-Applied
