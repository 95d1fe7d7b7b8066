-- ===== src/Raft/Node/Histories.antt =====
-- The histories of the nodes of a cluster, and the votes in them.
use neural_kv.Prelude.{
  ℕ, zero, suc, ◌+◌, ◌-◌, ◌≡◌, ◌≢◌, sym, ap, ◌∙◌, subst, inl, inr, List, arith, Bool-cases, leb,
}
use neural_kv.Cluster.{PeerInfo}
use neural_kv.Raft.Node.{RaftNode}
use neural_kv.Raft.Node.Terms.{IsSaved, Later, Later-refl, Later-trans}
use neural_kv.Raft.Node.Steps.{Run, run-IsSaved}

-- The histories of the nodes of a cluster: each node by its id, after each of its sections.
module _ (hash : List ℕ → ℕ) (peers : List PeerInfo) where
  pub record Cluster : Type 0 where
    pub state : ℕ → ℕ → RaftNode
    pub starts_saved : (id : ℕ) → IsSaved (state id 0)
    pub moves : (id k : ℕ) → Run hash id peers (state id k) (state id (suc k))

  module _ (cluster : Cluster) where
    saved : (id k : ℕ) → IsSaved (cluster.state id k)
    saved id zero = cluster.starts_saved id
    saved id (suc k) = (run-IsSaved hash id peers (cluster.moves id k) (saved id k)).0

    later : (id d k : ℕ) → Later (cluster.state id k) (cluster.state id (d + k))
    later id zero k =
        subst (λ j. Later (cluster.state id k) (cluster.state id j)) (omega arith)
          (Later-refl (cluster.state id k))
    later id (suc d) k =
        subst (λ j. Later (cluster.state id k) (cluster.state id j)) (omega arith)
          (Later-trans (later id d k)
            (run-IsSaved hash id peers (cluster.moves id (d + k)) (saved id (d + k))).1)

    -- At some point of its history the node has given its vote in the term to the candidate.
    abbrev pub Voted : ℕ → ℕ → ℕ → Type 0
    Voted id term candidate =
        (k : ℕ) × ((cluster.state id k).current_term ≡ term)
        × ((cluster.state id k).voted_for ≡ candidate)

    voted_before :
        (id term candidate candidate' k d : ℕ)
        → candidate ≢ 0
        → (cluster.state id k).current_term ≡ term
        → (cluster.state id k).voted_for ≡ candidate
        → (cluster.state id (d + k)).current_term ≡ term
        → (cluster.state id (d + k)).voted_for ≡ candidate'
        → candidate ≡ candidate'
    voted_before id term candidate candidate' k d real t v t' v' =
        sym v ∙ sym ((later id d k).vote_kept (t ∙ sym t') (λ z. real (sym v ∙ z))) ∙ v'

    pub Voted-same :
        (id term candidate candidate' : ℕ)
        → candidate ≢ 0
        → candidate' ≢ 0
        → Voted id term candidate
        → Voted id term candidate'
        → candidate ≡ candidate'
    Voted-same id term candidate candidate' real real' (k, t, v) (k', t', v') =
        elim (Bool-cases (leb k k')) [
          | inl first ↦
              let order : k' ≡ (k' - k) + k = ground (arith, first) in
              voted_before id term candidate candidate' k (k' - k) real t v
                (sym (ap (λ j. (cluster.state id j).current_term) order) ∙ t')
                (sym (ap (λ j. (cluster.state id j).voted_for) order) ∙ v')
          | inr second ↦
              let order : k ≡ (k - k') + k' = ground (arith, second) in
              sym (
                voted_before id term candidate' candidate k' (k - k') real' t' v'
                  (sym (ap (λ j. (cluster.state id j).current_term) order) ∙ t)
                  (sym (ap (λ j. (cluster.state id j).voted_for) order) ∙ v))
        ]
