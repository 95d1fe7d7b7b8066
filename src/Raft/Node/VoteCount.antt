-- ===== src/Raft/Node/VoteCount.antt =====
-- What count_votes counts, and that two majorities meet.
use neural_kv.Prelude.{
  ℕ, suc, ◌+◌, ◌≤◌, ◌<◌, ◌≡◌, ◌≢◌, refl, inl, inr, List, [], ◌∷◌, Bool, true, false, not, ◌&&◌,
  ◌||◌, none, some, arith, Bool-cases, Option-cases, ◌==◌, length, if◌then◌else◌,
}
use neural_kv.Cluster.{PeerInfo, find_peer}
use neural_kv.Raft.RpcCodec.{RequestVoteRequest, RequestVoteResponse}
use neural_kv.Raft.Node.{RaftNode}
use neural_kv.Raft.Node.Leader.{PeerIo}
use neural_kv.Raft.Node.Driver.{ask_vote, vote_answer, vote_of, count_votes}

-- How many elements pass a test.
pub count_if : {A : Type 0} → (A → Bool) → List A → ℕ
count_if test [] = 0
count_if test (x ∷ xs) = let rest = count_if test xs in if test x then suc rest else rest

-- Two tests that together pass more elements than there are both pass one of them.
pub both_pass :
    {A : Type 0} (f g : A → Bool) (xs : List A)
    → length xs < count_if f xs + count_if g xs
    → (x : A) × (f x ≡ true) × (g x ≡ true)
unfolding count_if
both_pass f g [] h = absurd (omega arith)
both_pass f g (x ∷ xs) h = elim (Bool-cases (f x)) [
  | inl f_yes ↦ elim (Bool-cases (g x)) [
    | inl g_yes ↦ (x, f_yes, g_yes)
    | inr g_no ↦ both_pass f g xs (ground (arith, f_yes, g_no, h))
  ]
  | inr f_no ↦ both_pass f g xs (ground (arith, f_no, h))
]

-- Whether the answer of a peer is a granted vote.
module _ (local_node_id : ℕ) (req : RequestVoteRequest) (io : PeerInfo → PeerIo) where
  abbrev pub says_yes : PeerInfo → Bool
  says_yes peer = elim (ask_vote local_node_id (io peer).send_rpc req) [
    | none ↦ false
    | some resp ↦ resp.vote_granted
  ]

  abbrev pub counted_yes : PeerInfo → Bool
  counted_yes peer = not (peer.node_id == local_node_id) && says_yes peer

  abbrev pub supports : PeerInfo → Bool
  supports peer = peer.node_id == local_node_id || says_yes peer

  vote_answer_is :
      (term : ℕ) (resp : RequestVoteResponse) (pio : PeerIo) (n : RaftNode) (answer : Bool)
      → (vote_answer local_node_id term resp pio n).0 ≡ some answer
      → answer ≡ resp.vote_granted
  unfolding vote_answer
  vote_answer_is term resp pio n answer h = ground (arith, h)

  vote_of_is :
      (peer : PeerInfo) (n : RaftNode) (answer : Bool)
      → (vote_of local_node_id req (io peer) n).0 ≡ some answer
      → answer ≡ says_yes peer
  unfolding vote_of
  vote_of_is peer n answer h = elim (Option-cases (ask_vote local_node_id (io peer).send_rpc req)) [
    | inl silent ↦ ground (arith, silent, h)
    | inr (resp, there) ↦
        let granted =
          vote_answer_is req.term resp (io peer) ((io peer).meanwhile n) answer
            (ground (arith, there, h)) in
        ground (arith, there, granted)
  ]

  -- What the election counts: its own vote, or what it starts from, and one for each other peer that says
  -- yes.
  pub count_votes_is :
      (peers : List PeerInfo) (votes total : ℕ) (n : RaftNode)
      → (count_votes local_node_id req peers io votes n).0 ≡ some total
      → total ≡ votes + count_if counted_yes peers
  unfolding count_votes count_if
  count_votes_is [] votes total n h = ground (arith, h)
  count_votes_is (peer ∷ peers) votes total n h =
      elim (Bool-cases (peer.node_id == local_node_id)) [
        | inl self ↦
            let rest = count_votes_is peers votes total n (ground (arith, self, h)) in
            ground (arith, self, rest)
        | inr other ↦ elim (Option-cases (vote_of local_node_id req (io peer) n).0) [
          | inl stops ↦ absurd (ground (arith, other, stops, h))
          | inr (answer, there) ↦
              let yes = vote_of_is peer n answer there in
              let n₁ = (vote_of local_node_id req (io peer) n).1 in
              elim (Bool-cases answer) [
                | inl granted ↦
                    let rest =
                      count_votes_is peers (votes + 1) total n₁
                        (ground (arith, other, there, granted, h)) in
                    ground (arith, other, yes, granted, rest)
                | inr denied ↦
                    let rest =
                      count_votes_is peers votes total n₁
                        (ground (arith, other, there, denied, h)) in
                    ground (arith, other, yes, denied, rest)
              ]
        ]
      ]

  supported_more : (peers : List PeerInfo) → count_if counted_yes peers ≤ count_if supports peers
  unfolding count_if
  supported_more [] = omega arith
  supported_more (peer ∷ peers) = ground (arith, supported_more peers)

  -- A node that is among its peers supports itself.
  pub self_supported :
      (peers : List PeerInfo)
      → find_peer local_node_id peers ≢ none
      → 1 + count_if counted_yes peers ≤ count_if supports peers
  unfolding count_if find_peer
  self_supported [] known = absurd (known refl)
  self_supported (peer ∷ peers) known = elim (Bool-cases (peer.node_id == local_node_id)) [
    | inl self ↦ ground (arith, self, supported_more peers)
    | inr other ↦
        let rest = self_supported peers λ missing. known (ground (arith, other, missing)) in
        ground (arith, other, rest)
  ]
