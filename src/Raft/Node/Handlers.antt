-- ===== src/Raft/Node/Handlers.antt =====
-- raft/node.cpp: HandleRequestVote, HandleAppendEntries and ApplyCommittedEntriesLocked. The statuses
-- of TruncateFrom and Append are dropped, as in the source.
use neural_kv.Prelude.{
  ℕ, zero, suc, ◌+◌, ◌-◌, List, [], ◌∷◌, none, some, Bool, true, false, not, ◌&&◌, ◌||◌, ◌==◌, ltb,
  leb, if◌then◌else◌, min,
}
use neural_kv.Persistence.WalWriter.{RewriteOutcome}
use neural_kv.Persistence.DurableStorage.{apply_committed}
use neural_kv.Raft.{RaftState, LogEntry}
use neural_kv.Raft.Log.{AppendIo, append, truncate_from, get, last_index, last_term}
use neural_kv.Raft.RpcCodec.{
  RequestVoteRequest, RequestVoteResponse, AppendEntriesRequest, AppendEntriesResponse,
}
use neural_kv.Raft.Node.{
  RaftNode, Clock, PersistOutcome, become_follower, persist_state, reset_election_deadline, log_of,
  put_log, is_candidate,
}

-- `if (term > current_term_) BecomeFollowerLocked(term);`
unfoldable pub step_down_if_behind : ℕ → Clock → PersistOutcome → RaftNode → RaftNode
unfolding become_follower
step_down_if_behind term clock outcome n =
    if ltb n.current_term term then become_follower term clock outcome n else n

-- The clock and the writes of raft/state.bin during one HandleRequestVote.
pub record VoteIo : Type 0 where
  pub clock : Clock
  pub step_down : PersistOutcome
  pub vote : PersistOutcome

abbrev pub can_vote : RequestVoteRequest → RaftNode → Bool
can_vote req n = (n.voted_for == 0) || (n.voted_for == req.candidate_id)

abbrev pub challenger_log_at_least_as_up_to_date : RequestVoteRequest → RaftNode → Bool
challenger_log_at_least_as_up_to_date req n =
    ltb (last_term n.entries) req.last_log_term
    || ((req.last_log_term == last_term n.entries) && leb (last_index n.entries) req.last_log_index)

unfoldable pub grant_vote : RequestVoteRequest → VoteIo → RaftNode → RaftNode
unfolding persist_state reset_election_deadline
grant_vote req io n =
    reset_election_deadline io.clock
      (persist_state io.vote (record n { voted_for = req.candidate_id }))

unfoldable pub handle_request_vote :
    RequestVoteRequest → VoteIo → RaftNode → RequestVoteResponse × RaftNode
unfolding step_down_if_behind grant_vote
handle_request_vote req io n =
    let n₁ = step_down_if_behind req.term io.clock io.step_down n in
    let answer : Bool → RequestVoteResponse =
      λ granted. record { term = n₁.current_term; vote_granted = granted } in
    if ltb req.term n₁.current_term
    then (answer false, n₁)
    else if can_vote req n₁ && challenger_log_at_least_as_up_to_date req n₁
    then (answer true, grant_vote req io n₁)
    else (answer false, n₁)

module _ (hash : List ℕ → ℕ) where
  -- The loop of ApplyCommittedEntriesLocked. Each round moves `last_applied_index_` one on, so that the
  -- distance to `commit_index_` is enough fuel.
  unfoldable pub apply_loop : ℕ → RaftNode → RaftNode
  apply_loop zero n = n
  apply_loop (suc fuel) n = elim (ltb n.storage.last_applied_index n.commit_index) [
    | false ↦ n
    | true ↦ elim (get (n.storage.last_applied_index + 1) n.entries) [
      | none ↦ n
      | some entry ↦ apply_loop fuel (record n { storage = apply_committed hash entry n.storage })
    ]
  ]

  unfoldable pub apply_committed_entries : RaftNode → RaftNode
  apply_committed_entries n = apply_loop (n.commit_index - n.storage.last_applied_index) n

-- The clock, the writes of raft/state.bin and, for the entry of each index, those of the log during
-- one HandleAppendEntries.
pub record AppendEntriesIo : Type 0 where
  pub clock : Clock
  pub step_down : PersistOutcome
  pub truncate : ℕ → RewriteOutcome
  pub append : ℕ → AppendIo

-- `prev_log_index` is 0, or names an entry of the term `prev_log_term`.
unfoldable pub prev_matches : AppendEntriesRequest → List LogEntry → Bool
prev_matches req entries =
    if req.prev_log_index == 0 then true else elim (get req.prev_log_index entries) [
      | none ↦ false
      | some prev ↦ prev.term == req.prev_log_term
    ]

-- The body of the loop over the request's entries.
unfoldable pub store_entry : AppendEntriesIo → ℕ → LogEntry → RaftNode → RaftNode
store_entry io index entry n = elim (get index n.entries) [
  | none ↦ put_log (append entry (io.append index) (log_of n)).1 n
  | some existing ↦
      let cut = put_log (truncate_from index (io.truncate index) (log_of n)).1 n in
      if existing.term == entry.term
      then n
      else put_log (append entry (io.append index) (log_of cut)).1 cut
]

-- The loop; `index` is that of the entry before.
unfoldable pub store_entries : AppendEntriesIo → ℕ → List LogEntry → RaftNode → RaftNode
store_entries io index [] n = n
store_entries io index (entry ∷ entries) n =
    store_entries io (index + 1) entries (store_entry io (index + 1) entry n)

-- The leader of the request's term is recognized.
unfoldable pub recognize_leader : AppendEntriesRequest → AppendEntriesIo → RaftNode → RaftNode
unfolding become_follower reset_election_deadline
recognize_leader req io n =
    let n₁ =
      if ltb n.current_term req.term
      then become_follower req.term io.clock io.step_down n
      else if is_candidate n.state
      then record n { state = RaftState.follower }
      else n in
    reset_election_deadline io.clock (record n₁ { leader_id = req.leader_id })

-- `if (req.leader_commit > commit_index_) { ... }`
unfoldable pub follow_commit : (List ℕ → ℕ) → ℕ → RaftNode → RaftNode
follow_commit hash leader_commit n =
    if ltb n.commit_index leader_commit
    then apply_committed_entries hash
        (record n { commit_index = min leader_commit (last_index n.entries) })
    else n

unfoldable pub handle_append_entries :
    (List ℕ → ℕ)
    → AppendEntriesRequest
    → AppendEntriesIo
    → RaftNode
    → AppendEntriesResponse × RaftNode
handle_append_entries hash req io n =
    let n₁ = recognize_leader req io n in
    let n₂ = store_entries io req.prev_log_index req.entries n₁ in
    if ltb req.term n.current_term
    then (record { term = n.current_term; success = false }, n)
    else if not (prev_matches req n₁.entries)
    then (record { term = n₁.current_term; success = false }, n₁)
    else (
      record { term = n₁.current_term; success = true },
      follow_commit hash req.leader_commit n₂,
    )
