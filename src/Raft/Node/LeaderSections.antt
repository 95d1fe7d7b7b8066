-- ===== src/Raft/Node/LeaderSections.antt =====
-- The same for the sections of an election and of a leader's round trips.
use neural_kv.Prelude.{
  ℕ, ◌+◌, ◌≡◌, inl, inr, refl, List, [], ◌∷◌, not, ◌&&◌, ◌||◌, arith, length, ltb, leb, ltb→lt,
  ◌==◌, Bool-cases, Option-cases,
}
use neural_kv.Bytes.{IsU32, IsU64, write_u32_be, write_u64_be, write_u64_loop}
use neural_kv.Cluster.{PeerInfo}
use neural_kv.Raft.{LogEntry}
use neural_kv.Raft.Log.{get}
use neural_kv.Raft.PeerMap.{at_or_zero}
use neural_kv.Raft.RpcCodec.{RequestVoteResponse, AppendEntriesRequest, AppendEntriesResponse}
use neural_kv.Raft.Node.{
  RaftNode, Clock, persist_state, state_bytes, reset_election_deadline, become_leader, is_candidate,
  is_leader, majority_of,
}
use neural_kv.Raft.Node.Leader.{
  PeerIo, advance_commit_index, majority_index, indices, request_for, acknowledged, refused,
  take_answer, confirm_answer,
}
use neural_kv.Raft.Node.Driver.{begin_election, finish_election, vote_answer}
use neural_kv.Raft.Node.Terms.{Same, Same-trans, Effect}
use neural_kv.Raft.Node.Sections.{whole, apply_committed_entries-Same, become_follower-Effect}

same : (n : RaftNode) → Same n n
same n = record { term_same = refl; vote_same = refl; file_same = refl }

advance_commit_index-Same :
    (hash : List ℕ → ℕ) (n : RaftNode) → Same n (advance_commit_index hash n)
unfolding advance_commit_index
advance_commit_index-Same hash n = elim (Option-cases (majority_index (indices n))) [
  | inl missing ↦ rw (advance_commit_index, missing) (same n)
  | inr (candidate, there) ↦ elim (Bool-cases (leb candidate n.commit_index)) [
    | inl old ↦ rw (advance_commit_index, there, old) (same n)
    | inr new ↦ elim (Option-cases (get candidate n.entries)) [
      | inl missing ↦ rw (advance_commit_index, there, new, missing) (same n)
      | inr (entry, found) ↦ elim (Bool-cases (entry.term == n.current_term)) [
        | inr older ↦ rw (advance_commit_index, there, new, found, older) (same n)
        | inl current ↦
            let moved : RaftNode = record n { commit_index = candidate } in
            let rest = apply_committed_entries-Same hash moved in
            rw (advance_commit_index, there, new, found, current)
              (record {
                term_same = rest.term_same;
                vote_same = rest.vote_same;
                file_same = rest.file_same;
              })
      ]
    ]
  ]
]

acknowledged-Same :
    (local peer_id now : ℕ) (entries : List LogEntry) (n : RaftNode)
    → Same n (acknowledged local peer_id now entries n)
unfolding acknowledged
acknowledged-Same local peer_id now [] n = record {
  term_same = refl;
  vote_same = refl;
  file_same = refl;
}
acknowledged-Same local peer_id now (e ∷ es) n = record {
  term_same = refl;
  vote_same = refl;
  file_same = refl;
}

refused-Same : (local peer_id : ℕ) (n : RaftNode) → Same n (refused local peer_id n)
unfolding refused
refused-Same local peer_id n = elim (Bool-cases (ltb 1 (at_or_zero peer_id n.next_index).0)) [
  | inl far ↦ rw far (record { term_same = refl; vote_same = refl; file_same = refl })
  | inr near ↦ rw near (record { term_same = refl; vote_same = refl; file_same = refl })
]

pub request_for-Same :
    (local peer_id : ℕ) (chosen : ℕ → List LogEntry) (n : RaftNode)
    → Same n (request_for local peer_id chosen n).1
unfolding request_for
request_for-Same local peer_id chosen n = record {
  term_same = refl;
  vote_same = refl;
  file_same = refl;
}

pub take_answer-Effect :
    (local : ℕ) (hash : List ℕ → ℕ) (peer_id : ℕ) (req : AppendEntriesRequest)
    (resp : AppendEntriesResponse) (io : PeerIo) (n : RaftNode)
    → io.step_down ≡ whole
    → IsU64 resp.term
    → Effect n (take_answer local hash peer_id req resp io n)
unfolding take_answer
take_answer-Effect local hash peer_id req resp io n healthy fits =
    elim (Bool-cases (not (is_leader n.state) || not (n.current_term == req.term))) [
      | inl stale ↦ rw stale (inl (same n))
      | inr live ↦ elim (Bool-cases (ltb n.current_term resp.term)) [
        | inl behind ↦
            rw (live, behind, healthy)
              (become_follower-Effect resp.term io.clock n (ltb→lt n.current_term resp.term behind)
                fits)
        | inr level ↦ elim (Bool-cases resp.success) [
          | inl success ↦
              rw (live, level, success)
                (inl (
                  Same-trans (acknowledged-Same local peer_id io.clock.now req.entries n)
                    (advance_commit_index-Same hash _)))
          | inr failure ↦ rw (live, level, failure) (inl (refused-Same local peer_id n))
        ]
      ]
    ]

pub confirm_answer-Effect :
    (local term peer_id : ℕ) (resp : AppendEntriesResponse) (io : PeerIo) (n : RaftNode)
    → io.step_down ≡ whole
    → IsU64 resp.term
    → Effect n (confirm_answer local term peer_id resp io n).1
unfolding confirm_answer
confirm_answer-Effect local term peer_id resp io n healthy fits =
    elim (Bool-cases (ltb n.current_term resp.term)) [
      | inl behind ↦
          rw (behind, healthy)
            (become_follower-Effect resp.term io.clock n (ltb→lt n.current_term resp.term behind)
              fits)
      | inr level ↦ elim (Bool-cases (not (is_leader n.state) || not (n.current_term == term))) [
        | inl stale ↦ rw (level, stale) (inl (same n))
        | inr live ↦ elim (Bool-cases resp.success) [
          | inl success ↦
              rw (level, live, success)
                (inl (record { term_same = refl; vote_same = refl; file_same = refl }))
          | inr failure ↦ rw (level, live, failure) (inl (same n))
        ]
      ]
    ]

pub vote_answer-Effect :
    (local term : ℕ) (resp : RequestVoteResponse) (io : PeerIo) (n : RaftNode)
    → io.step_down ≡ whole
    → IsU64 resp.term
    → Effect n (vote_answer local term resp io n).1
unfolding vote_answer
vote_answer-Effect local term resp io n healthy fits =
    elim (Bool-cases (not (is_candidate n.state) || not (n.current_term == term))) [
      | inl stale ↦ rw stale (inl (same n))
      | inr live ↦ elim (Bool-cases (ltb n.current_term resp.term)) [
        | inl behind ↦
            rw (live, behind, healthy)
              (become_follower-Effect resp.term io.clock n (ltb→lt n.current_term resp.term behind)
                fits)
        | inr level ↦ rw (live, level) (inl (same n))
      ]
    ]

pub begin_election-Effect :
    (local : ℕ) (clock : Clock) (n : RaftNode)
    → IsU64 (n.current_term + 1)
    → IsU32 local
    → Effect n (begin_election local clock whole n)
unfolding begin_election persist_state reset_election_deadline state_bytes write_u64_be
    write_u64_loop write_u32_be
begin_election-Effect local clock n fits id = inr (record {
  later = record { term_le = omega arith; vote_kept = λ e there. absurd (omega arith) };
  term_fits = fits;
  vote_fits = id;
  file_is = refl;
})

pub finish_election-Same :
    (local : ℕ) (peers : List PeerInfo) (now term votes : ℕ) (n : RaftNode)
    → Same n (finish_election local peers now term votes n)
unfolding finish_election become_leader
finish_election-Same local peers now term votes n =
    elim (Bool-cases (
      (is_candidate n.state && (n.current_term == term))
      && leb (majority_of (length peers)) votes)) [
        | inl won ↦ rw won (record { term_same = refl; vote_same = refl; file_same = refl })
        | inr lost ↦ rw lost (same n)
      ]
