-- ===== src/Raft/Node/Votes.antt =====
-- What HandleRequestVote says when it grants a vote.
use neural_kv.Prelude.{
  ℕ, ◌≤◌, ◌<◌, ◌≡◌, ◌≢◌, ◌⊎◌, inl, inr, refl, sym, ◌∙◌, true, ◌&&◌, arith, ltb, ltb→lt, ltb→le,
  Bool-cases,
}
use neural_kv.Raft.RpcCodec.{RequestVoteRequest}
use neural_kv.Raft.Node.{
  RaftNode, Clock, PersistOutcome, not_opened, stored, persist_state, reset_election_deadline,
  become_follower,
}
use neural_kv.Raft.Node.Handlers.{
  VoteIo, handle_request_vote, grant_vote, can_vote, challenger_log_at_least_as_up_to_date,
  step_down_if_behind,
}
use neural_kv.Raft.Node.Sections.{vote_free}

become_follower_facts :
    (term : ℕ) (clock : Clock) (outcome : PersistOutcome) (n : RaftNode)
    → ((become_follower term clock outcome n).current_term ≡ term)
      × ((become_follower term clock outcome n).voted_for ≡ 0)
unfolding become_follower persist_state reset_election_deadline
become_follower_facts term clock not_opened n = (refl, refl)
become_follower_facts term clock (stored k) n = (refl, refl)

grant_vote_facts :
    (req : RequestVoteRequest) (clock : Clock) (step_down vote : PersistOutcome) (n : RaftNode)
    → let n' = grant_vote req (record { clock = clock; step_down = step_down; vote = vote }) n in
      (n'.current_term ≡ n.current_term) × (n'.voted_for ≡ req.candidate_id)
unfolding grant_vote persist_state reset_election_deadline
grant_vote_facts req clock step_down not_opened n = (refl, refl)
grant_vote_facts req clock step_down (stored k) n = (refl, refl)

step_down_cases :
    (term : ℕ) (clock : Clock) (outcome : PersistOutcome) (n : RaftNode)
    → let n' = step_down_if_behind term clock outcome n in
      ((n.current_term < term) × (n'.current_term ≡ term) × (n'.voted_for ≡ 0))
      ⊎ ((term ≤ n.current_term)
          × (n'.current_term ≡ n.current_term)
          × (n'.voted_for ≡ n.voted_for))
unfolding step_down_if_behind
step_down_cases term clock outcome n = elim (Bool-cases (ltb n.current_term term)) [
  | inl behind ↦ rw behind (
      let (e1, e2) = become_follower_facts term clock outcome n in
      inl (ltb→lt n.current_term term behind, e1, e2))
  | inr level ↦ rw level (inr (ltb→le n.current_term term level, refl, refl))
]

-- If HandleRequestVote grants a vote, the node was not ahead of the term of the request, the terms
-- of the answer and of the node are then that of the request, its vote is the candidate, and within
-- the same term it had not voted for another.
pub granted_facts :
    (req : RequestVoteRequest) (io : VoteIo) (n : RaftNode)
    → (handle_request_vote req io n).0.vote_granted ≡ true
    → ((handle_request_vote req io n).0.term ≡ req.term)
      × ((handle_request_vote req io n).1.current_term ≡ req.term)
      × ((handle_request_vote req io n).1.voted_for ≡ req.candidate_id)
      × (n.current_term ≤ req.term)
      × (n.current_term ≡ req.term → n.voted_for ≢ 0 → req.candidate_id ≡ n.voted_for)
unfolding handle_request_vote
granted_facts req io n =
    let n₁ = step_down_if_behind req.term io.clock io.step_down n in
    let (g1, g2) = grant_vote_facts req io.clock io.step_down io.vote n₁ in
    let fresh = challenger_log_at_least_as_up_to_date req n₁ in
    let yes = can_vote req n₁ && fresh in
    elim (Bool-cases (ltb req.term n₁.current_term)) [
      | inl stale ↦ rw (handle_request_vote, stale) (λ granted. absurd (ground (arith, granted)))
      | inr current ↦ elim (Bool-cases yes) [
        | inr denied ↦
            rw (handle_request_vote, current, denied) (λ granted. absurd (ground (arith, granted)))
        | inl allowed ↦
            let free = vote_free n₁.voted_for req.candidate_id fresh allowed in
            rw (handle_request_vote, current, allowed)
              (λ granted. elim (step_down_cases req.term io.clock io.step_down n) [
                | inl (behind, term_is, vote_is) ↦
                    (term_is, g1 ∙ term_is, g2, omega arith, λ e there. absurd (omega arith))
                | inr (level, term_is, vote_is) ↦
                    let low : n₁.current_term ≤ req.term =
                      ltb→le req.term n₁.current_term current in
                    (
                      omega arith,
                      omega arith,
                      g2,
                      omega arith,
                      λ e there. free (λ z. there (sym vote_is ∙ z)) ∙ vote_is,
                    )
              ])
      ]
    ]
