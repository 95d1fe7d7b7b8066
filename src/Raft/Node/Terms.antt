-- ===== src/Raft/Node/Terms.antt =====
-- What the locked sections of raft/node.cpp do to the term, the vote and raft/state.bin.
use neural_kv.Prelude.{◌≤◌, ◌≡◌, ◌≢◌, ◌⊎◌, inl, inr, refl, sym, ap, ◌∙◌, [], none, some, arith}
use neural_kv.Bytes.{IsU32, IsU64, write_u32_be, write_u64_be, write_u64_loop}
use neural_kv.Bytes.RoundTrip.{read-write_u32, read-write_u64}
use neural_kv.Result.{ok}
use neural_kv.Persistence.Recovery.{LogFile, absent, present}
use neural_kv.Raft.{PersistentState}
use neural_kv.Raft.Node.{RaftNode, state_bytes, load_persisted_state}

-- What raft/state.bin holds, for the next start.
abbrev pub disk : RaftNode → LogFile
disk n = elim n.state_file [ none ↦ absent | some file ↦ present file ]

abbrev pub saved_state : RaftNode → PersistentState
saved_state n = record { current_term = n.current_term; voted_for = n.voted_for }

-- The term and the vote fit their fields, and the next start reads them from the disk.
pub record IsSaved (n : RaftNode) : Type 0 where
  pub term_fits : IsU64 n.current_term
  pub vote_fits : IsU32 n.voted_for
  pub on_disk : load_persisted_state (disk n) ≡ ok (saved_state n)

-- The term never falls, and within a term a vote once given stays.
pub record Later (n n' : RaftNode) : Type 0 where
  pub term_le : n.current_term ≤ n'.current_term
  pub vote_kept : n.current_term ≡ n'.current_term → n.voted_for ≢ 0 → n'.voted_for ≡ n.voted_for

pub Later-refl : (n : RaftNode) → Later n n
Later-refl n = record { term_le = omega arith; vote_kept = λ same some_vote. refl }

pub Later-trans : {a b c : RaftNode} → Later a b → Later b c → Later a c
Later-trans {a} {b} {c} p q = record {
  term_le = omega (arith, p.term_le, q.term_le);
  vote_kept = λ same there.
      let first : a.current_term ≡ b.current_term = omega (arith, p.term_le, q.term_le) in
      let second : b.current_term ≡ c.current_term = omega (arith, p.term_le, q.term_le) in
      let kept = p.vote_kept first there in
      q.vote_kept second (λ zero_vote. there (sym kept ∙ zero_vote)) ∙ kept;
}

-- A section leaves term, vote and file alone, or moves on and saves what it moved to.
pub record Same (n n' : RaftNode) : Type 0 where
  pub term_same : n'.current_term ≡ n.current_term
  pub vote_same : n'.voted_for ≡ n.voted_for
  pub file_same : n'.state_file ≡ n.state_file

pub record Moved (n n' : RaftNode) : Type 0 where
  pub later : Later n n'
  pub term_fits : IsU64 n'.current_term
  pub vote_fits : IsU32 n'.voted_for
  pub file_is : n'.state_file ≡ some (state_bytes (saved_state n'))

abbrev pub Effect : RaftNode → RaftNode → Type 0
Effect n n' = Same n n' ⊎ Moved n n'

pub Same-trans : {a b c : RaftNode} → Same a b → Same b c → Same a c
Same-trans p q = record {
  term_same = q.term_same ∙ p.term_same;
  vote_same = q.vote_same ∙ p.vote_same;
  file_same = q.file_same ∙ p.file_same;
}

-- The constructor reads back what PersistStateLocked wrote.
pub load-state_bytes :
    (s : PersistentState)
    → IsU64 s.current_term
    → IsU32 s.voted_for
    → load_persisted_state (present (state_bytes s)) ≡ ok s
unfolding load_persisted_state state_bytes write_u64_be write_u64_loop write_u32_be
load-state_bytes s term vote =
    ground (arith, read-write_u64 s.current_term [] term, read-write_u32 s.voted_for [] vote)

pub Effect-sound : {n n' : RaftNode} → Effect n n' → IsSaved n → IsSaved n' × Later n n'
Effect-sound {n} {n'} (inl same) saved = (
  record {
    term_fits = omega (arith, same.term_same, saved.term_fits);
    vote_fits = omega (arith, same.vote_same, saved.vote_fits);
    on_disk =
        ap (λ file. load_persisted_state (elim file [ none ↦ absent | some f ↦ present f ]))
          same.file_same
        ∙ saved.on_disk
        ∙ ground (arith, same.term_same, same.vote_same);
  },
  record { term_le = omega (arith, same.term_same); vote_kept = λ e there. same.vote_same },
)
Effect-sound {n} {n'} (inr moved) saved = (
  record {
    term_fits = moved.term_fits;
    vote_fits = moved.vote_fits;
    on_disk =
        ap (λ file. load_persisted_state (elim file [ none ↦ absent | some f ↦ present f ]))
          moved.file_is
        ∙ load-state_bytes (saved_state n') moved.term_fits moved.vote_fits;
  },
  moved.later,
)
