-- ===== src/Raft/Node/Sections.antt =====
-- Each locked section of raft/node.cpp leaves term, vote and file alone or moves on and saves: the
-- writes of raft/state.bin are whole here.
use neural_kv.Prelude.{
  ℕ, zero, suc, ◌+◌, ◌-◌, min, ◌<◌, ◌≡◌, ◌≢◌, inl, inr, refl, ap, ◌∙◌, List, [], ◌∷◌, some, Bool,
  true, ◌&&◌, ◌||◌, arith, ltb, ltb→lt, ◌==◌, Bool-cases, Option-cases,
}
use neural_kv.Bytes.{IsU32, IsU64, write_u32_be, write_u64_be, write_u64_loop}
use neural_kv.Persistence.DurableStorage.{apply_committed}
use neural_kv.Raft.{RaftState, LogEntry}
use neural_kv.Raft.Log.{get, last_index}
use neural_kv.Raft.RpcCodec.{RequestVoteRequest, AppendEntriesRequest}
use neural_kv.Raft.Node.{
  RaftNode, Clock, PersistOutcome, stored, persist_state, state_bytes, reset_election_deadline,
  become_follower, is_candidate,
}
use neural_kv.Raft.Node.Handlers.{
  AppendEntriesIo, handle_request_vote, grant_vote, can_vote, challenger_log_at_least_as_up_to_date,
  step_down_if_behind, apply_loop, apply_committed_entries, store_entry, store_entries,
  recognize_leader, follow_commit, prev_matches, handle_append_entries,
}
use neural_kv.Raft.Node.Terms.{
  Effect-sound, IsSaved, Later, Later-trans, Same, Same-trans, Moved, Effect,
}

-- All twelve bytes of raft/state.bin.
abbrev pub whole : PersistOutcome
whole = stored 12

same : (n : RaftNode) → Same n n
same n = record { term_same = refl; vote_same = refl; file_same = refl }

Effect-Same : {a b c : RaftNode} → Effect a b → Same b c → Effect a c
Effect-Same (inl first) then = inl (Same-trans first then)
Effect-Same {a} {b} {c} (inr moved) then = inr (record {
  later =
      Later-trans moved.later
        (record { term_le = omega (arith, then.term_same); vote_kept = λ e there. then.vote_same });
  term_fits = omega (arith, then.term_same, moved.term_fits);
  vote_fits = omega (arith, then.vote_same, moved.vote_fits);
  file_is =
      then.file_same
      ∙ moved.file_is
      ∙ ap (λ s. some (state_bytes s)) (ground (arith, then.term_same, then.vote_same));
})

Effect-Later : {a b : RaftNode} → Effect a b → Later a b
Effect-Later (inl first) = record {
  term_le = omega (arith, first.term_same);
  vote_kept = λ e there. first.vote_same;
}
Effect-Later (inr moved) = moved.later

Effect-trans : {a b c : RaftNode} → Effect a b → Effect b c → Effect a c
Effect-trans first (inl then) = Effect-Same first then
Effect-trans {a} {b} {c} first (inr moved) = inr (record {
  later = Later-trans (Effect-Later first) moved.later;
  term_fits = moved.term_fits;
  vote_fits = moved.vote_fits;
  file_is = moved.file_is;
})

pub become_follower-Effect :
    (term : ℕ) (clock : Clock) (n : RaftNode)
    → n.current_term < term
    → IsU64 term
    → Effect n (become_follower term clock whole n)
unfolding become_follower persist_state reset_election_deadline state_bytes write_u64_be
    write_u64_loop write_u32_be
become_follower-Effect term clock n higher fits = inr (record {
  later = record { term_le = omega arith; vote_kept = λ e there. absurd (omega arith) };
  term_fits = fits;
  vote_fits = omega arith;
  file_is = refl;
})

step_down-Effect :
    (term : ℕ) (clock : Clock) (n : RaftNode)
    → IsU64 term
    → Effect n (step_down_if_behind term clock whole n)
unfolding step_down_if_behind
step_down-Effect term clock n fits = elim (Bool-cases (ltb n.current_term term)) [
  | inl behind ↦
      rw behind (become_follower-Effect term clock n (ltb→lt n.current_term term behind) fits)
  | inr level ↦ rw level (inl (same n))
]

grant_vote-Moved :
    (req : RequestVoteRequest) (clock : Clock) (step_down : PersistOutcome) (n : RaftNode)
    → IsU64 n.current_term
    → IsU32 req.candidate_id
    → (n.voted_for ≢ 0 → req.candidate_id ≡ n.voted_for)
    → Moved n (grant_vote req (record { clock = clock; step_down = step_down; vote = whole }) n)
unfolding grant_vote persist_state reset_election_deadline state_bytes write_u64_be write_u64_loop
    write_u32_be
grant_vote-Moved req clock step_down n fits id free = record {
  later = record { term_le = omega arith; vote_kept = λ e there. free there };
  term_fits = fits;
  vote_fits = id;
  file_is = refl;
}

pub vote_free :
    (voted candidate : ℕ) (fresh : Bool)
    → (((voted == 0) || (voted == candidate)) && fresh) ≡ true
    → voted ≢ 0
    → candidate ≡ voted
vote_free voted candidate fresh h there = ground (arith, h, there)

pub handle_request_vote-Effect :
    (req : RequestVoteRequest) (clock : Clock) (n : RaftNode)
    → IsSaved n
    → IsU64 req.term
    → IsU32 req.candidate_id
    → Effect n
        (handle_request_vote req (record { clock = clock; step_down = whole; vote = whole }) n).1
unfolding handle_request_vote
handle_request_vote-Effect req clock n saved term id =
    let n₁ = step_down_if_behind req.term clock whole n in
    let first : Effect n n₁ = step_down-Effect req.term clock n term in
    let yes = can_vote req n₁ && challenger_log_at_least_as_up_to_date req n₁ in
    elim (Bool-cases (ltb req.term n₁.current_term)) [
      | inl stale ↦ rw stale first
      | inr current ↦ elim (Bool-cases yes) [
        | inl granted ↦
            rw (current, granted)
              (Effect-trans first (
                inr (
                  grant_vote-Moved req clock whole n₁ (Effect-sound first saved).0.term_fits id (
                    vote_free n₁.voted_for req.candidate_id
                      (challenger_log_at_least_as_up_to_date req n₁) granted))))
        | inr denied ↦ rw (current, denied) first
      ]
    ]

apply_loop-Same : (hash : List ℕ → ℕ) (fuel : ℕ) (n : RaftNode) → Same n (apply_loop hash fuel n)
unfolding apply_loop
apply_loop-Same hash zero n = same n
apply_loop-Same hash (suc fuel) n =
    elim (Bool-cases (ltb n.storage.last_applied_index n.commit_index)) [
      | inr done ↦ rw (apply_loop, done) (same n)
      | inl more ↦ elim (Option-cases (get (n.storage.last_applied_index + 1) n.entries)) [
        | inl missing ↦ rw (apply_loop, more, missing) (same n)
        | inr (entry, found) ↦
            let next : RaftNode = record n { storage = apply_committed hash entry n.storage } in
            let rest = apply_loop-Same hash fuel next in
            rw (apply_loop, more, found)
              (record {
                term_same = rest.term_same;
                vote_same = rest.vote_same;
                file_same = rest.file_same;
              })
      ]
    ]

pub apply_committed_entries-Same :
    (hash : List ℕ → ℕ) (n : RaftNode) → Same n (apply_committed_entries hash n)
unfolding apply_committed_entries
apply_committed_entries-Same hash n = apply_loop-Same hash _ n

store_entry-Same :
    (io : AppendEntriesIo) (index : ℕ) (entry : LogEntry) (n : RaftNode)
    → Same n (store_entry io index entry n)
unfolding store_entry
store_entry-Same io index entry n = elim (Option-cases (get index n.entries)) [
  | inl missing ↦
      rw (store_entry, missing) (record { term_same = refl; vote_same = refl; file_same = refl })
  | inr (existing, found) ↦ elim (Bool-cases (existing.term == entry.term)) [
    | inl agree ↦ rw (store_entry, found, agree) (same n)
    | inr differ ↦
        rw (store_entry, found, differ)
          (record { term_same = refl; vote_same = refl; file_same = refl })
  ]
]

store_entries-Same :
    (io : AppendEntriesIo) (index : ℕ) (entries : List LogEntry) (n : RaftNode)
    → Same n (store_entries io index entries n)
unfolding store_entries
store_entries-Same io index [] n = same n
store_entries-Same io index (entry ∷ entries) n =
    Same-trans (store_entry-Same io (index + 1) entry n)
      (store_entries-Same io (index + 1) entries (store_entry io (index + 1) entry n))

follow_commit-Same :
    (hash : List ℕ → ℕ) (leader_commit : ℕ) (n : RaftNode)
    → Same n (follow_commit hash leader_commit n)
unfolding follow_commit apply_committed_entries
follow_commit-Same hash leader_commit n = elim (Bool-cases (ltb n.commit_index leader_commit)) [
  | inr old ↦ rw old (same n)
  | inl new ↦ rw new (
      let moved : RaftNode = record n { commit_index = min leader_commit (last_index n.entries) } in
      let rest = apply_loop-Same hash (moved.commit_index - n.storage.last_applied_index) moved in
      record { term_same = rest.term_same; vote_same = rest.vote_same; file_same = rest.file_same })
]

led :
    (n m : RaftNode) (clock : Clock) (leader : ℕ)
    → Effect n m
    → Effect n (reset_election_deadline clock (record m { leader_id = leader }))
unfolding reset_election_deadline
led n m clock leader first =
    Effect-Same first (record { term_same = refl; vote_same = refl; file_same = refl })

recognize_leader-Effect :
    (req : AppendEntriesRequest) (io : AppendEntriesIo) (n : RaftNode)
    → io.step_down ≡ whole
    → IsU64 req.term
    → Effect n (recognize_leader req io n)
unfolding recognize_leader
recognize_leader-Effect req io n healthy fits = elim (Bool-cases (ltb n.current_term req.term)) [
  | inl behind ↦
      rw (recognize_leader, behind, healthy)
        (led n _ io.clock req.leader_id
          (become_follower-Effect req.term io.clock n (ltb→lt n.current_term req.term behind) fits))
  | inr level ↦ elim (Bool-cases (is_candidate n.state)) [
    | inl candidate ↦
        rw (recognize_leader, level, candidate)
          (led n (record n { state = RaftState.follower }) io.clock req.leader_id
            (inl (record { term_same = refl; vote_same = refl; file_same = refl })))
    | inr other ↦
        rw (recognize_leader, level, other) (led n n io.clock req.leader_id (inl (same n)))
  ]
]

pub handle_append_entries-Effect :
    (hash : List ℕ → ℕ) (req : AppendEntriesRequest) (io : AppendEntriesIo) (n : RaftNode)
    → io.step_down ≡ whole
    → IsU64 req.term
    → Effect n (handle_append_entries hash req io n).1
unfolding handle_append_entries
handle_append_entries-Effect hash req io n healthy fits =
    let n₁ = recognize_leader req io n in
    let first : Effect n n₁ = recognize_leader-Effect req io n healthy fits in
    elim (Bool-cases (ltb req.term n.current_term)) [
      | inl stale ↦ rw stale (inl (same n))
      | inr current ↦ elim (Bool-cases (prev_matches req n₁.entries)) [
        | inr differ ↦ rw (current, differ) first
        | inl agree ↦
            rw (current, agree)
              (Effect-Same first (
                Same-trans (store_entries-Same io req.prev_log_index req.entries n₁)
                  (follow_commit-Same hash req.leader_commit _)))
      ]
    ]
