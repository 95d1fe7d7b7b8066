-- ===== src/Raft/Node/Commit.antt =====
-- What AdvanceCommitIndexLocked does to the commit index.
use neural_kv.Prelude.{
  ℕ, zero, suc, ◌+◌, ◌≤◌, ◌<◌, ◌≡◌, ◌⊎◌, inl, inr, refl, List, some, arith, leb, ◌==◌, ==→eq,
  Bool-cases, Option-cases, ltb,
}
use neural_kv.Persistence.DurableStorage.{apply_committed}
use neural_kv.Raft.{LogEntry}
use neural_kv.Raft.Log.{get}
use neural_kv.Raft.Node.{RaftNode}
use neural_kv.Raft.Node.Handlers.{apply_loop, apply_committed_entries}
use neural_kv.Raft.Node.Leader.{advance_commit_index}
use neural_kv.Raft.Node.MajorityIndex.{Highest, majority_index-Highest}

apply_loop-commit :
    (hash : List ℕ → ℕ) (fuel : ℕ) (n : RaftNode)
    → (apply_loop hash fuel n).commit_index ≡ n.commit_index
unfolding apply_loop
apply_loop-commit hash zero n = refl
apply_loop-commit hash (suc fuel) n =
    elim (Bool-cases (ltb n.storage.last_applied_index n.commit_index)) [
      | inr done ↦ rw (apply_loop, done) refl
      | inl more ↦ elim (Option-cases (get (n.storage.last_applied_index + 1) n.entries)) [
        | inl missing ↦ rw (apply_loop, more, missing) refl
        | inr (entry, found) ↦
            rw (apply_loop, more, found)
              (apply_loop-commit hash fuel
                (record n { storage = apply_committed hash entry n.storage }))
      ]
    ]

pub apply_committed_entries-commit :
    (hash : List ℕ → ℕ) (n : RaftNode)
    → (apply_committed_entries hash n).commit_index ≡ n.commit_index
unfolding apply_committed_entries
apply_committed_entries-commit hash n = apply_loop-commit hash _ n

-- The log of the node has at the index an entry of its current term.
abbrev pub HasCurrent : RaftNode → ℕ → Type 0
HasCurrent n m = (entry : LogEntry) × (get m n.entries ≡ some entry) × (entry.term ≡ n.current_term)

-- Call an index reached by the node if its own log goes that far, and by a peer if its number in
-- `match_index_` is that index or more. There is a highest index that more than half of the node
-- and all the peers of `match_index_` have reached: AdvanceCommitIndexLocked moves the commit index
-- to it if it is above the commit index and the log of the node has there an entry of the current
-- term, and it leaves the commit index as it is only where one of the two is not so.
pub advance_commit_index-majority :
    (hash : List ℕ → ℕ) (n : RaftNode)
    → let n' = advance_commit_index hash n in
      (candidate : ℕ) × Highest n candidate
      × (((n.commit_index < candidate) × HasCurrent n candidate × (n'.commit_index ≡ candidate))
          ⊎ ((n'.commit_index ≡ n.commit_index)
              × ((candidate ≤ n.commit_index) ⊎ ¬ (HasCurrent n candidate))))
unfolding advance_commit_index
advance_commit_index-majority hash n =
    let (candidate, there, highest) = majority_index-Highest n in
    elim (Bool-cases (leb candidate n.commit_index)) [
      | inl old ↦
          rw (advance_commit_index, there, old)
            (candidate, highest, inr (refl, inl (ground (arith, old))))
      | inr new ↦ elim (Option-cases (get candidate n.entries)) [
        | inl missing ↦
            rw (advance_commit_index, there, new, missing)
              (candidate, highest, inr (refl, inr (λ has. ground (arith, missing, has.1))))
        | inr (entry, found) ↦ elim (Bool-cases (entry.term == n.current_term)) [
          | inr older ↦
              rw (advance_commit_index, there, new, found, older)
                (
                  candidate,
                  highest,
                  inr (
                    refl,
                    inr (λ has.
                        let (other, there_too, current) = has in
                        ground (arith, found, older, there_too, current)),
                  ),
                )
          | inl current ↦
              let same = ==→eq entry.term n.current_term current in
              rw (advance_commit_index, there, new, found, current)
                (
                  candidate,
                  highest,
                  inl (
                    ground (arith, new),
                    (entry, found, same),
                    apply_committed_entries-commit hash (record n { commit_index = candidate }),
                  ),
                )
        ]
      ]
    ]
