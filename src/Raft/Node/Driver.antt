-- ===== src/Raft/Node/Driver.antt =====
-- raft/node.cpp: StartElection, Propose and one round of RunLoop.
use neural_kv.Prelude.{
  ℕ, ◌+◌, List, [], ◌∷◌, Option, none, some, Bool, true, false, not, ◌&&◌, ◌||◌, ◌==◌, ltb, leb,
  if◌then◌else◌, length,
}
use neural_kv.Status.{Status, ErrorCode, okay, error}
use neural_kv.Result.{Result, ok, err}
use neural_kv.Cluster.{PeerInfo}
use neural_kv.Protocol.{ClusterRequest, ClusterResponse, ClusterOpcode, invalid}
use neural_kv.Raft.{RaftState, LogEntry}
use neural_kv.Raft.Log.{AppendIo, append, last_index, last_term}
use neural_kv.Raft.RpcCodec.{
  RequestVoteRequest, RequestVoteResponse, encode_request_vote_request,
  decode_request_vote_response,
}
use neural_kv.Raft.Node.{
  RaftNode, Clock, PersistOutcome, become_follower, become_leader, persist_state,
  reset_election_deadline, log_of, put_log, is_leader, is_candidate, majority_of,
  heartbeat_interval,
}
use neural_kv.Raft.Node.Leader.{PeerIo, replicate_to_all}

-- The first locked section of StartElection.
module _ (local_node_id : ℕ) where
  unfoldable pub begin_election : Clock → PersistOutcome → RaftNode → RaftNode
  unfolding persist_state reset_election_deadline
  begin_election clock outcome n = reset_election_deadline clock (
      persist_state outcome (record n {
        current_term = n.current_term + 1;
        voted_for = local_node_id;
        state = RaftState.candidate;
        leader_id = 0;
      }))

  abbrev pub vote_request : RaftNode → RequestVoteRequest
  vote_request n = record {
    term = n.current_term;
    candidate_id = local_node_id;
    last_log_index = last_index n.entries;
    last_log_term = last_term n.entries;
  }

  -- The request sent, and the decoded answer.
  unfoldable pub ask_vote :
      (ClusterRequest → Result ClusterResponse) → RequestVoteRequest → Option RequestVoteResponse
  ask_vote send_rpc req =
      elim (send_rpc (record {
        request_id = 0;
        opcode = ClusterOpcode.request_vote;
        body = encode_request_vote_request req;
      })) [
        | err status ↦ none
        | ok answer ↦ elim (decode_request_vote_response answer.body) [
          | err status ↦ none
          | ok resp ↦ some resp
        ]
      ]

  -- The locked section after an answer: `none` where StartElection returns, else whether the vote was
  -- granted.
  unfoldable pub vote_answer : ℕ → RequestVoteResponse → PeerIo → RaftNode → Option Bool × RaftNode
  vote_answer term resp io n =
      if not (is_candidate n.state) || not (n.current_term == term)
      then (none, n)
      else if ltb n.current_term resp.term
      then (none, become_follower resp.term io.clock io.step_down n)
      else (some resp.vote_granted, n)

  -- One peer.
  unfoldable pub vote_of : RequestVoteRequest → PeerIo → RaftNode → Option Bool × RaftNode
  vote_of req io n = elim (ask_vote io.send_rpc req) [
    | none ↦ (some false, io.meanwhile n)
    | some resp ↦ vote_answer req.term resp io (io.meanwhile n)
  ]

  unfoldable pub count_votes :
      RequestVoteRequest → List PeerInfo → (PeerInfo → PeerIo) → ℕ → RaftNode → Option ℕ × RaftNode
  count_votes req [] io votes n = (some votes, n)
  count_votes req (peer ∷ peers) io votes n = elim (peer.node_id == local_node_id) [
    | true ↦ count_votes req peers io votes n
    | false ↦
        let (answer, n₁) = vote_of req (io peer) n in
        elim answer [
          | none ↦ (none, n₁)
          | some true ↦ count_votes req peers io (votes + 1) n₁
          | some false ↦ count_votes req peers io votes n₁
        ]
  ]

  -- The last locked section.
  unfoldable pub finish_election : List PeerInfo → ℕ → ℕ → ℕ → RaftNode → RaftNode
  finish_election peers now term votes n =
      if (is_candidate n.state && (n.current_term == term))
        && leb (majority_of (length peers)) votes
      then become_leader local_node_id peers now n
      else n

  -- StartElection; `now` is the time at its end.
  unfoldable pub start_election :
      List PeerInfo → Clock → PersistOutcome → (PeerInfo → PeerIo) → ℕ → RaftNode → RaftNode
  start_election peers clock outcome io now n =
      let n₁ = begin_election clock outcome n in
      let req = vote_request n₁ in
      let (votes, n₂) = count_votes req peers io 1 n₁ in
      elim votes [ none ↦ n₂ | some count ↦ finish_election peers now req.term count n₂ ]

  -- What Propose meets: its append, its peers, and what has happened to the node when the wait ends.
  pub record ProposeIo : Type 0 where
    pub append : AppendIo
    pub peer : PeerInfo → PeerIo
    pub meanwhile : RaftNode → RaftNode

  -- The end of the wait: its condition is looked at once more.
  unfoldable pub propose_status : ℕ → RaftNode → Status
  propose_status index n =
      let applied = leb index n.storage.last_applied_index in
      if not (applied || not (is_leader n.state))
      then error ErrorCode.io_error "propose timed out waiting for commit"
      else if not applied
      then invalid "not leader"
      else okay

  unfoldable pub propose :
      (List ℕ → ℕ) → List PeerInfo → LogEntry → ProposeIo → RaftNode → Status × RaftNode
  propose hash peers entry io n =
      let (appended, log) = append (record entry { term = n.current_term }) io.append (log_of n) in
      let n₁ = put_log log n in
      if not (is_leader n.state) then (invalid "not leader", n) else elim appended [
        | err status ↦ (status, n₁)
        | ok stored ↦
            let n₂ = io.meanwhile (replicate_to_all local_node_id hash peers io.peer n₁) in
            (propose_status stored.index n₂, n₂)
      ]

  -- One round of RunLoop after the sleep. The locked section decides; the peers or the election follow.
  unfoldable pub tick :
      (List ℕ → ℕ)
      → List PeerInfo
      → Clock
      → PersistOutcome
      → (PeerInfo → PeerIo)
      → ℕ
      → RaftNode
      → RaftNode
  tick hash peers clock outcome io now n =
      if is_leader n.state && leb n.next_heartbeat clock.now
      then replicate_to_all local_node_id hash peers io
          (record n { next_heartbeat = clock.now + heartbeat_interval })
      else if not (is_leader n.state) && leb n.election_deadline clock.now
      then start_election peers clock outcome io now n
      else n
