-- ===== src/Raft/Node/Apply.antt =====
-- What ApplyCommittedEntriesLocked leaves in the map.
use neural_kv.Prelude.{
  ℕ, zero, suc, ◌+◌, ◌-◌, ◌≤◌, ◌<◌, ◌≡◌, refl, sym, ap, ◌∙◌, subst, List, [], ◌∷◌, ◌++◌, none, some,
  arith, length, get_elem?, take, All, ltb, Bool-cases, inl, inr,
}
use neural_kv.Persistence.WalRecord.{IsValidRecord}
use neural_kv.Persistence.WalWriter.Invariant.{Numbered}
use neural_kv.Persistence.DurableStorage.{DurableStorage, apply_committed}
use neural_kv.Persistence.Recovery.View.{
  spec_replay, spec_replay-append, apply_op-IsWellFormed, view-apply_op,
}
use neural_kv.Storage.ShardedKv.View.{IsWellFormed, view}
use neural_kv.Raft.{LogEntry}
use neural_kv.Raft.Log.{get}
use neural_kv.Raft.Log.Laws.{get-Numbered}
use neural_kv.Raft.Node.{RaftNode}
use neural_kv.Raft.Node.Handlers.{apply_loop, apply_committed_entries}

-- The map shows what the entries up to the last applied index stand for.
pub record Applied (hash : List ℕ → ℕ) (entries : List LogEntry) (d : DurableStorage) : Type 0 where
  pub map_formed : IsWellFormed d.kv
  pub shows :
      (j : List ℕ)
      → view hash d.kv j ≡ spec_replay (take d.last_applied_index entries) (λ _. none) j

take-next :
    (i : ℕ) (es : List LogEntry) (e : LogEntry)
    → get_elem? es i ≡ some e
    → take (suc i) es ≡ take i es ++ (e ∷ [])
take-next i [] e h = absurd (ground (arith, h))
take-next zero (x ∷ es) e h = ground (arith, h)
take-next (suc i) (x ∷ es) e h = ap (λ l. x ∷ l) (take-next i es e h)

All-get :
    (i : ℕ) (es : List LogEntry) (e : LogEntry)
    → All IsValidRecord es
    → get_elem? es i ≡ some e
    → IsValidRecord e
All-get i [] e v h = absurd (ground (arith, h))
All-get zero (x ∷ es) e v h = subst IsValidRecord (ap (λ o. elim o [ some a ↦ a | none ↦ e ]) h) v.0
All-get (suc i) (x ∷ es) e v h = All-get i es e v.1 h

module _ (hash : List ℕ → ℕ) (entries : List LogEntry) (numbered : Numbered 1 entries)
    (valid : All IsValidRecord entries) where
  apply_committed-Applied :
      (e : LogEntry) (d : DurableStorage)
      → get_elem? entries d.last_applied_index ≡ some e
      → e.index ≡ suc d.last_applied_index
      → Applied hash entries d
      → Applied hash entries (apply_committed hash e d)
  unfolding apply_committed
  apply_committed-Applied e d at index a =
      let v = All-get d.last_applied_index entries e valid at in
      record {
        map_formed = apply_op-IsWellFormed hash e.op e.key e.value d.kv a.map_formed;
        shows = λ j.
            view-apply_op hash e.op e.key e.value d.kv
              (spec_replay (take d.last_applied_index entries) (λ _. none)) a.map_formed v.key_there
              a.shows j
            ∙ ap (λ m. m j)
                (sym (spec_replay-append (take d.last_applied_index entries) e (λ _. none)))
            ∙ ap (λ es. spec_replay es (λ _. none) j)
                (sym (take-next d.last_applied_index entries e at))
            ∙ ap (λ k. spec_replay (take k entries) (λ _. none) j) (sym index);
      }

  apply_loop-Applied :
      (fuel : ℕ) (n : RaftNode)
      → n.entries ≡ entries
      → n.commit_index ≤ length entries
      → n.commit_index ≤ n.storage.last_applied_index + fuel
      → n.storage.last_applied_index ≤ n.commit_index
      → Applied hash entries n.storage
      → ((apply_loop hash fuel n).storage.last_applied_index ≡ n.commit_index)
        × Applied hash entries (apply_loop hash fuel n).storage
  unfolding apply_loop
  apply_loop-Applied zero n log there enough low a = (omega arith, a)
  apply_loop-Applied (suc fuel) n log there enough low a =
      elim (Bool-cases (ltb n.storage.last_applied_index n.commit_index)) [
        | inr done ↦ rw (apply_loop, done) (ground (arith, done), a)
        | inl more ↦
            let small : n.storage.last_applied_index < length entries = ground (arith, more) in
            let (e, found, at, index) =
              get-Numbered n.storage.last_applied_index entries numbered small in
            let found' : get (n.storage.last_applied_index + 1) n.entries ≡ some e =
              let same : n.storage.last_applied_index + 1 ≡ suc n.storage.last_applied_index =
                omega arith in
              ap (get (n.storage.last_applied_index + 1)) log
              ∙ ap (λ k. get k entries) same
              ∙ found in
            let next : RaftNode = record n { storage = apply_committed hash e n.storage } in
            let moved : next.storage.last_applied_index ≡ suc n.storage.last_applied_index =
              unfold apply_committed in index in
            rw (apply_loop, more, found')
              (apply_loop-Applied fuel next log there (omega arith) (ground (arith, more))
                (apply_committed-Applied e n.storage at index a))
      ]

-- Of a node whose log is numbered from 1 and has valid records, whose commit index is within the
-- log and not behind the last applied index, and whose map shows the log up to there:
-- ApplyCommittedEntriesLocked moves the last applied index to the commit index, and the map then
-- shows the log up to there.
pub apply_committed_entries-Applied :
    (hash : List ℕ → ℕ) (n : RaftNode)
    → Numbered 1 n.entries
    → All IsValidRecord n.entries
    → n.commit_index ≤ length n.entries
    → n.storage.last_applied_index ≤ n.commit_index
    → Applied hash n.entries n.storage
    → ((apply_committed_entries hash n).storage.last_applied_index ≡ n.commit_index)
      × Applied hash n.entries (apply_committed_entries hash n).storage
unfolding apply_committed_entries
apply_committed_entries-Applied hash n numbered valid there low a =
    apply_loop-Applied hash n.entries numbered valid (n.commit_index - n.storage.last_applied_index)
      n refl there (omega arith) low a
