-- ===== src/Raft/Node/Follow.antt =====
-- What HandleAppendEntries leaves in the log when it says success and every system call succeeds.
use neural_kv.Prelude.{
  ℕ, zero, suc, ◌+◌, ◌≤◌, ◌≡◌, ◌⊎◌, inl, inr, refl, sym, ap, ◌∙◌, subst, List, some, true, arith,
  length, get_elem?, take, All, ◌==◌, ==→eq, ltb, Bool-cases, Option-cases,
}
use neural_kv.Bytes.{IsU64}
use neural_kv.Persistence.WalRecord.{IsValidRecord}
use neural_kv.Persistence.WalWriter.{WalWriter}
use neural_kv.Raft.{LogEntry}
use neural_kv.Raft.Log.{Log, get}
use neural_kv.Raft.Log.Laws.{InStep}
use neural_kv.Raft.RpcCodec.{AppendEntriesRequest}
use neural_kv.Raft.Node.{
  RaftNode, Clock, PersistOutcome, not_opened, stored, log_of, is_candidate, become_follower,
  persist_state, reset_election_deadline,
}
use neural_kv.Persistence.DurableStorage.{apply_committed}
use neural_kv.Raft.Node.Handlers.{
  store_entries, recognize_leader, follow_commit, prev_matches, handle_append_entries, apply_loop,
  apply_committed_entries,
}
use neural_kv.Raft.Node.Store.{HasTerm, HasTerm-reaches, smooth, store_entries-StoredAll}

become_follower-log :
    (term : ℕ) (clock : Clock) (outcome : PersistOutcome) (n : RaftNode)
    → log_of (become_follower term clock outcome n) ≡ log_of n
unfolding become_follower persist_state reset_election_deadline
become_follower-log term clock not_opened n = refl
become_follower-log term clock (stored k) n = refl

recognize_leader-log :
    (req : AppendEntriesRequest) (wake : WalWriter) (clock : Clock) (step_down : PersistOutcome)
    (n : RaftNode)
    → log_of (recognize_leader req (smooth wake clock step_down) n) ≡ log_of n
unfolding recognize_leader reset_election_deadline
recognize_leader-log req wake clock step_down n = elim (Bool-cases (ltb n.current_term req.term)) [
  | inl behind ↦ rw (recognize_leader, behind) (become_follower-log req.term clock step_down n)
  | inr level ↦ elim (Bool-cases (is_candidate n.state)) [
    | inl candidate ↦ rw (recognize_leader, level, candidate) refl
    | inr other ↦ rw (recognize_leader, level, other) refl
  ]
]

apply_loop-log :
    (hash : List ℕ → ℕ) (fuel : ℕ) (n : RaftNode) → log_of (apply_loop hash fuel n) ≡ log_of n
unfolding apply_loop apply_committed
apply_loop-log hash zero n = refl
apply_loop-log hash (suc fuel) n =
    elim (Bool-cases (ltb n.storage.last_applied_index n.commit_index)) [
      | inr done ↦ rw (apply_loop, done) refl
      | inl more ↦ elim (Option-cases (get (n.storage.last_applied_index + 1) n.entries)) [
        | inl missing ↦ rw (apply_loop, more, missing) refl
        | inr (entry, found) ↦
            rw (apply_loop, more, found)
              (apply_loop-log hash fuel
                (record n { storage = apply_committed hash entry n.storage }))
      ]
    ]

follow_commit-log :
    (hash : List ℕ → ℕ) (leader_commit : ℕ) (n : RaftNode)
    → log_of (follow_commit hash leader_commit n) ≡ log_of n
unfolding follow_commit apply_committed_entries
follow_commit-log hash leader_commit n = elim (Bool-cases (ltb n.commit_index leader_commit)) [
  | inr old ↦ rw old refl
  | inl new ↦ rw new (apply_loop-log hash _ _)
]

prev_matches-HasTerm :
    (req : AppendEntriesRequest) (es : List LogEntry)
    → prev_matches req es ≡ true
    → (req.prev_log_index ≡ 0) ⊎ HasTerm req.prev_log_index req.prev_log_term es
unfolding prev_matches HasTerm
prev_matches-HasTerm req es h = elim (Bool-cases (req.prev_log_index == 0)) [
  | inl nothing ↦ inl (==→eq req.prev_log_index 0 nothing)
  | inr behind ↦ elim (Option-cases (get req.prev_log_index es)) [
    | inl missing ↦ absurd (ground (arith, h, behind, missing))
    | inr (e, found) ↦
        inr (e, found, ==→eq e.term req.prev_log_term (ground (arith, h, behind, found)))
  ]
]

-- Of a follower whose log is the same in memory and on disk, numbered from 1, and of a request with
-- valid records: if HandleAppendEntries answers success and every write, truncation and fsync of
-- the log succeeds, the log is again the same in memory and on disk, it has at each index of the
-- request an entry of the term that the request has there, its entries up to the previous index of
-- the request are untouched, and that index was 0 or had the previous term.
pub handle_append_entries-agrees :
    (hash : List ℕ → ℕ) (req : AppendEntriesRequest) (wake : WalWriter) (clock : Clock)
    (step_down : PersistOutcome) (n : RaftNode)
    → InStep (log_of n)
    → All IsValidRecord req.entries
    → IsU64 (req.prev_log_index + length req.entries)
    → let out = handle_append_entries hash req (smooth wake clock step_down) n in
      out.0.success ≡ true
      → InStep (log_of out.1)
        × ((k : ℕ) (e : LogEntry)
            → get_elem? req.entries k ≡ some e
            → HasTerm (req.prev_log_index + 1 + k) e.term out.1.entries)
        × (take req.prev_log_index out.1.entries ≡ take req.prev_log_index n.entries)
        × ((req.prev_log_index ≡ 0) ⊎ HasTerm req.prev_log_index req.prev_log_term n.entries)
unfolding handle_append_entries
handle_append_entries-agrees hash req wake clock step_down n h v fits =
    let io = smooth wake clock step_down in
    let n₁ = recognize_leader req io n in
    let log₁ : log_of n₁ ≡ log_of n = recognize_leader-log req wake clock step_down n in
    let entries₁ = ap (λ (l : Log). l.entries) log₁ in
    let n₂ = store_entries io req.prev_log_index req.entries n₁ in
    let n₃ = follow_commit hash req.leader_commit n₂ in
    let log₃ : log_of n₃ ≡ log_of n₂ = follow_commit-log hash req.leader_commit n₂ in
    let entries₃ = ap (λ (l : Log). l.entries) log₃ in
    elim (Bool-cases (ltb req.term n.current_term)) [
      | inl stale ↦ rw (handle_append_entries, stale) (λ success. absurd (ground (arith, success)))
      | inr current ↦ elim (Bool-cases (prev_matches req n₁.entries)) [
        | inr differ ↦
            rw (handle_append_entries, current, differ)
              (λ success. absurd (ground (arith, success)))
        | inl agree ↦
            rw (handle_append_entries, current, agree)
              (λ success.
                let prev = prev_matches-HasTerm req n₁.entries agree in
                let there : req.prev_log_index ≤ length n₁.entries = elim prev [
                  | inl start ↦ omega arith
                  | inr has ↦ HasTerm-reaches req.prev_log_index req.prev_log_term n₁.entries has
                ] in
                let all =
                  store_entries-StoredAll wake clock step_down req.prev_log_index req.entries n₁
                    (subst InStep (sym log₁) h) v fits there in
                (
                  subst InStep (sym log₃) all.in_step,
                  λ k e found.
                      subst (HasTerm (req.prev_log_index + 1 + k) e.term) (sym entries₃)
                        (all.agrees k e found),
                  ap (take req.prev_log_index) entries₃
                      ∙ all.untouched
                      ∙ ap (take req.prev_log_index) entries₁,
                  subst
                      (λ es.
                        (req.prev_log_index ≡ 0) ⊎ HasTerm req.prev_log_index req.prev_log_term es)
                      entries₁ prev,
                ))
      ]
    ]
