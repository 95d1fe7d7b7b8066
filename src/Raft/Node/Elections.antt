-- ===== src/Raft/Node/Elections.antt =====
-- Elections of a cluster and who can win them.
use neural_kv.Prelude.{
  ℕ, suc, ◌+◌, ◌≤◌, ◌<◌, ◌≡◌, ◌≢◌, refl, sym, ap, ◌∙◌, subst, inl, inr, List, true, false, ◌&&◌,
  none, some, arith, Bool-cases, Option-cases, ◌==◌, leb, ==→eq, length,
}
use neural_kv.Cluster.{PeerInfo, find_peer}
use neural_kv.Raft.RpcCodec.{RequestVoteRequest, RequestVoteResponse}
use neural_kv.Raft.Node.{RaftNode, Clock, is_leader, is_candidate, majority_of}
use neural_kv.Raft.Node.Handlers.{handle_request_vote}
use neural_kv.Raft.Node.Leader.{PeerIo}
use neural_kv.Raft.Node.Driver.{
  begin_election, vote_request, ask_vote, count_votes, finish_election, start_election,
}
use neural_kv.Raft.Node.Sections.{whole}
use neural_kv.Raft.Node.Votes.{granted_facts}
use neural_kv.Raft.Node.Steps.{healthy}
use neural_kv.Raft.Node.VoteCount.{count_if, both_pass, supports, count_votes_is, self_supported}
use neural_kv.Raft.Node.Histories.{Cluster, Voted, Voted-same}

module _ (hash : List ℕ → ℕ) (peers : List PeerInfo) (cluster : Cluster hash peers) where
  -- One call of StartElection: the point of its first section in the history of its node, and what it
  -- meets.
  pub record Election : Type 0 where
    pub begins : ℕ
    pub clock : Clock
    pub io : PeerInfo → PeerIo
    pub now : ℕ

  -- The candidate after the first section, and the request that it sends.
  abbrev pub candidate_of : ℕ → Election → RaftNode
  candidate_of id e = cluster.state id (suc e.begins)

  abbrev pub request_of : ℕ → Election → RequestVoteRequest
  request_of id e = vote_request id (candidate_of id e)

  -- The history has the first section of the election.
  abbrev pub Begins : ℕ → Election → Type 0
  Begins id e = candidate_of id e ≡ begin_election id e.clock whole (cluster.state id e.begins)

  -- An answer that comes from a peer is one that its HandleRequestVote gave to this request, in a section
  -- of its history.
  abbrev pub HearsPeers : ℕ → Election → Type 0
  HearsPeers id e =
      (peer : PeerInfo) (resp : RequestVoteResponse)
      → ask_vote id (e.io peer).send_rpc (request_of id e) ≡ some resp
      → (k : ℕ) × (clock : Clock) × (resp
          ≡ (handle_request_vote (request_of id e) (healthy clock)
              (cluster.state peer.node_id k)).0)
        × (cluster.state peer.node_id (suc k)
            ≡ (handle_request_vote (request_of id e) (healthy clock)
                (cluster.state peer.node_id k)).1)

  -- The last section of StartElection makes a node leader that was not.
  abbrev pub Wins : ℕ → Election → Type 0
  Wins id e =
      (votes : ℕ) × (n : RaftNode) × (count_votes id (request_of id e) peers e.io 1
          (candidate_of id e)
        ≡ (some votes, n))
      × (is_leader n.state ≡ false)
      × (is_leader (finish_election id peers e.now (request_of id e).term votes n).state ≡ true)

  -- It is StartElection that does so: with its sections one after the other it leaves the node leader.
  Wins-start_election :
      (id : ℕ) (e : Election)
      → Begins id e
      → Wins id e
      → is_leader
          (start_election id peers e.clock whole e.io e.now (cluster.state id e.begins)).state
        ≡ true
  unfolding start_election
  Wins-start_election id e begun (votes, n, counted, was_not, won) =
      let n₁ = begin_election id e.clock whole (cluster.state id e.begins) in
      let counted' : count_votes id (vote_request id n₁) peers e.io 1 n₁ ≡ (some votes, n) =
        subst (λ m. count_votes id (vote_request id m) peers e.io 1 m ≡ (some votes, n)) begun
          counted in
      let won' : is_leader (finish_election id peers e.now (vote_request id n₁).term votes n).state
          ≡ true =
        subst
          (λ (m : RaftNode).
            is_leader (finish_election id peers e.now m.current_term votes n).state ≡ true)
          begun won in
      rw (start_election, ap (λ o. o.0) counted', ap (λ o. o.1) counted') won'

  majority_counted :
      (id now term votes : ℕ) (n : RaftNode)
      → is_leader n.state ≡ false
      → is_leader (finish_election id peers now term votes n).state ≡ true
      → majority_of (length peers) ≤ votes
  unfolding finish_election
  majority_counted id now term votes n was_not h =
      elim (Bool-cases (
        (is_candidate n.state && (n.current_term == term))
        && leb (majority_of (length peers)) votes)) [
          | inl test ↦ ground (arith, test)
          | inr fails ↦ absurd (ground (arith, fails, was_not, h))
        ]

  begun_vote : (id : ℕ) (e : Election) → Begins id e → (candidate_of id e).voted_for ≡ id
  unfolding begin_election
  begun_vote id e begun = ap (λ (n : RaftNode). n.voted_for) begun

  supports-Voted :
      (id : ℕ) (e : Election) (peer : PeerInfo)
      → Begins id e
      → HearsPeers id e
      → supports id (request_of id e) e.io peer ≡ true
      → Voted hash peers cluster peer.node_id (request_of id e).term id
  supports-Voted id e peer begun hears backs = elim (Bool-cases (peer.node_id == id)) [
    | inl self ↦
        subst (λ j. Voted hash peers cluster j (request_of id e).term id)
          (sym (==→eq peer.node_id id self)) (suc e.begins, refl, begun_vote id e begun)
    | inr other ↦ elim (Option-cases (ask_vote id (e.io peer).send_rpc (request_of id e))) [
      | inl silent ↦ absurd (ground (arith, other, silent, backs))
      | inr (resp, there) ↦
          let (k, clock, from_peer, moved) = hears peer resp there in
          let granted : resp.vote_granted ≡ true = ground (arith, other, there, backs) in
          let (f1, f2, f3, f4, f5) =
            granted_facts (request_of id e) (healthy clock) (cluster.state peer.node_id k)
              (sym (ap (λ (r : RequestVoteResponse). r.vote_granted) from_peer) ∙ granted) in
          (
            suc k,
            ap (λ (n : RaftNode). n.current_term) moved ∙ f2,
            ap (λ (n : RaftNode). n.voted_for) moved ∙ f3,
          )
    ]
  ]

  supporters :
      (id : ℕ) (e : Election)
      → find_peer id peers ≢ none
      → Wins id e
      → majority_of (length peers) ≤ count_if (supports id (request_of id e) e.io) peers
  supporters id e known (votes, n, counted, was_not, won) =
      let total =
        count_votes_is id (request_of id e) e.io peers 1 votes (candidate_of id e)
          (ap (λ o. o.0) counted) in
      let more = self_supported id (request_of id e) e.io peers known in
      let enough = majority_counted id e.now (request_of id e).term votes n was_not won in
      omega (arith, total, more, enough)

  -- Election safety. Let the nodes of a cluster move by their locked sections, restarts included,
  -- from states that raft/state.bin holds, with every write of raft/state.bin whole and with
  -- incoming terms and ids that fit their types; and let two nodes of the peer list, whose ids are
  -- not 0, each hold an election in which the answers that it hears are those that its peers gave.
  -- If both elections are of the same term and each makes its node leader, then it is the same
  -- node.
  pub election_safety :
      (id id' : ℕ) (e e' : Election)
      → id ≢ 0
      → id' ≢ 0
      → find_peer id peers ≢ none
      → find_peer id' peers ≢ none
      → Begins id e
      → Begins id' e'
      → HearsPeers id e
      → HearsPeers id' e'
      → Wins id e
      → Wins id' e'
      → (candidate_of id e).current_term ≡ (candidate_of id' e').current_term
      → id ≡ id'
  election_safety id id' e e' real real' known known' begun begun' hears hears' won won' same_term =
      let s = supporters id e known won in
      let s' = supporters id' e' known' won' in
      let over : length peers
          < count_if (supports id (request_of id e) e.io) peers
            + count_if (supports id' (request_of id' e') e'.io) peers =
        omega (arith, s, s') in
      let (peer, backs, backs') =
        both_pass (supports id (request_of id e) e.io) (supports id' (request_of id' e') e'.io)
          peers over in
      Voted-same hash peers cluster peer.node_id (request_of id e).term id id' real real'
        (supports-Voted id e peer begun hears backs)
        (subst (λ t. Voted hash peers cluster peer.node_id t id') (sym same_term)
          (supports-Voted id' e' peer begun' hears' backs'))
