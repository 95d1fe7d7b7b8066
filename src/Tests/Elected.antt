-- ===== src/Tests/Elected.antt =====
-- An election of two nodes: node 1 asks for votes, node 2 grants its own.
use neural_kv.Prelude.{
  ℕ, zero, suc, ap, ◌≡◌, ◌≢◌, refl, sym, ◌+◌, ◌∙◌, subst, inl, inr, List, [], ◌∷◌, true, false,
  none, some, arith, Bool-cases, ◌==◌, ==→eq, if◌then◌else◌,
}
use neural_kv.Status.{ErrorCode, error}
use neural_kv.Result.{Result, ok, err}
use neural_kv.Protocol.{ClusterRequest, ClusterResponse, ResponseStatus}
use neural_kv.Cluster.{PeerInfo, find_peer}
use neural_kv.Raft.RpcCodec.{RequestVoteRequest, RequestVoteResponse, encode_request_vote_response}
use neural_kv.Raft.RpcCodec.RoundTrip.{request_vote_response_round}
use neural_kv.Raft.Node.{
  RaftNode, Clock, become_follower, persist_state, reset_election_deadline, become_leader,
  is_leader,
}
use neural_kv.Raft.Node.Handlers.{handle_request_vote, step_down_if_behind, grant_vote}
use neural_kv.Raft.Node.Driver.{
  begin_election, vote_request, ask_vote, vote_of, vote_answer, count_votes, finish_election,
}
use neural_kv.Raft.Node.Sections.{whole}
use neural_kv.Raft.Node.Terms.{IsSaved}
use neural_kv.Raft.Node.Steps.{Step, Run, healthy}
use neural_kv.Raft.Node.Histories.{Cluster}
use neural_kv.Raft.Node.Elections.{Election, HearsPeers, election_safety}
use neural_kv.Tests.{by_length}
use neural_kv.Tests.Consensus.{node, node-IsSaved, clock}

abbrev peer_of : ℕ → PeerInfo
peer_of id = record { node_id = id; host = 104 ∷ []; port = 7000 + id }

abbrev two_peers : List PeerInfo
two_peers = peer_of 1 ∷ peer_of 2 ∷ []

abbrev begun : RaftNode
begun = begin_election 1 clock whole node

abbrev granting : RaftNode
granting = (handle_request_vote (vote_request 1 begun) (healthy clock) node).1

-- Node 1 begins the election in its first section, and node 2 handles the request in its own.
abbrev history : ℕ → ℕ → RaftNode
history (suc zero) (suc k) = begun
history (suc (suc zero)) (suc k) = granting
history _ _ = node

begun_term : (vote_request 1 begun).term ≡ 4
unfolding begin_election persist_state reset_election_deadline
begun_term = refl

moves : (id k : ℕ) → Run by_length id two_peers (history id k) (history id (suc k))
moves zero k = Run.done
moves (suc zero) zero = Run.then (Step.election_begun clock (omega arith) (omega arith)) Run.done
moves (suc zero) (suc k) = Run.done
moves (suc (suc zero)) zero =
    Run.then
      (Step.vote_requested (vote_request 1 begun) clock (ground (arith, begun_term)) (omega arith))
      Run.done
moves (suc (suc zero)) (suc k) = Run.done
moves (suc (suc (suc id))) k = Run.done

history-IsSaved : (id : ℕ) → IsSaved (history id 0)
history-IsSaved zero = node-IsSaved
history-IsSaved (suc zero) = node-IsSaved
history-IsSaved (suc (suc zero)) = node-IsSaved
history-IsSaved (suc (suc (suc id))) = node-IsSaved

abbrev two_nodes : Cluster by_length two_peers
two_nodes = record { state = history; starts_saved = history-IsSaved; moves = moves }

abbrev vote : RequestVoteResponse
vote = record { term = 4; vote_granted = true }

vote_is : (handle_request_vote (vote_request 1 begun) (healthy clock) node).0 ≡ vote
unfolding handle_request_vote step_down_if_behind become_follower persist_state
    reset_election_deadline grant_vote begin_election
vote_is = refl

-- Node 2 answers with its vote; nobody else answers.
abbrev answer_of : ℕ → ClusterRequest → Result ClusterResponse
answer_of id req =
    if id == 2
    then ok (record {
      request_id = 0;
      status = ResponseStatus.ok;
      body = encode_request_vote_response vote;
    })
    else err (error ErrorCode.io_error "unreachable")

abbrev sample_election : Election by_length two_peers two_nodes
sample_election = record {
  begins = 0;
  clock = clock;
  io = λ peer. record {
    meanwhile = λ n. n;
    send_rpc = answer_of peer.node_id;
    clock = clock;
    step_down = whole;
  };
  now = 200;
}

asked :
    (id : ℕ) (req : RequestVoteRequest)
    → (id == 2) ≡ true
    → ask_vote 1 (answer_of id) req ≡ some vote
unfolding ask_vote
asked id req is_two = ground (arith, is_two, request_vote_response_round vote (omega arith))

not_asked :
    (id : ℕ) (req : RequestVoteRequest) → (id == 2) ≡ false → ask_vote 1 (answer_of id) req ≡ none
unfolding ask_vote
not_asked id req other = ground (arith, other)

hears : HearsPeers by_length two_peers two_nodes 1 sample_election
hears peer resp there = elim (Bool-cases (peer.node_id == 2)) [
  | inr other ↦ absurd (ground (arith, there, not_asked peer.node_id (vote_request 1 begun) other))
  | inl is_two ↦
      let same : vote ≡ resp =
        ground (arith, there, asked peer.node_id (vote_request 1 begun) is_two) in
      subst
        (λ id.
          (k : ℕ) × (clk : Clock) × (resp
            ≡ (handle_request_vote (vote_request 1 begun) (healthy clk) (history id k)).0)
          × (history id (suc k)
              ≡ (handle_request_vote (vote_request 1 begun) (healthy clk) (history id k)).1))
        (sym (==→eq peer.node_id 2 is_two)) (0, clock, sym same ∙ sym vote_is, refl)
]

answer_counts :
    vote_answer 1 (vote_request 1 begun).term vote (sample_election.io (peer_of 2)) begun
    ≡ (some true, begun)
unfolding vote_answer begin_election persist_state reset_election_deadline
answer_counts = refl

vote_counts :
    vote_of 1 (vote_request 1 begun) (sample_election.io (peer_of 2)) begun ≡ (some true, begun)
unfolding vote_of
vote_counts = rw (vote_of, asked 2 (vote_request 1 begun) refl) answer_counts

counted :
    count_votes 1 (vote_request 1 begun) two_peers sample_election.io 1 begun ≡ (some 2, begun)
unfolding count_votes
counted = rw (count_votes, ap (λ o. o.0) vote_counts, ap (λ o. o.1) vote_counts) refl

candidate : is_leader begun.state ≡ false
unfolding begin_election persist_state reset_election_deadline
candidate = refl

elected : is_leader (finish_election 1 two_peers 200 begun.current_term 2 begun).state ≡ true
unfolding finish_election become_leader begin_election persist_state reset_election_deadline
elected = refl

known_one : find_peer 1 two_peers ≢ none
unfolding find_peer
known_one h = ground (arith, h)

election_safety_example : ◌≡◌ {A = ℕ} 1 1
election_safety_example =
    election_safety by_length two_peers two_nodes 1 1 sample_election sample_election
      (λ e. absurd (omega (arith, e))) (λ e. absurd (omega (arith, e))) known_one known_one refl
      refl hears hears (2, begun, counted, candidate, elected)
      (2, begun, counted, candidate, elected) refl
