-- ===== src/Cluster/Config/Validity.antt =====
-- What Validate accepts.
use neural_kv.Prelude.{
  ℕ, ◌≡◌, ◌≢◌, ◌↔◌, ◌⊎◌, refl, inl, inr, List, [], ◌∷◌, Bool, true, false, ◌||◌, none, arith, All,
  Bool-cases, ◌==◌, ==→eq,
}
use neural_kv.Status.{is_ok}
use neural_kv.Cluster.{PeerInfo, ClusterConfig, find_peer}
use neural_kv.Cluster.Config.Load.{has_id, validate_peers, validate}

-- No two peers share an id.
abbrev pub Distinct : List PeerInfo → Type 0
Distinct [] = Unit {0}
Distinct (peer ∷ peers) =
    All (λ (other : PeerInfo). other.node_id ≢ peer.node_id) peers × Distinct peers

-- A configuration as the header describes it.
abbrev pub IsValid : ClusterConfig → Type 0
IsValid config =
    (config.local_node_id ≢ 0)
    × Distinct config.peers
    × (find_peer config.local_node_id config.peers ≢ none)
    × ((config.leader_node_id ≡ 0) ⊎ (find_peer config.leader_node_id config.peers ≢ none))

has_id-false :
    (id : ℕ) (peers : List PeerInfo)
    → has_id id peers ≡ false
    → All (λ (other : PeerInfo). other.node_id ≢ id) peers
unfolding has_id
has_id-false id [] h = tt
has_id-false id (peer ∷ peers) h =
    (λ same. ground (arith, h, same), has_id-false id peers (ground (arith, h)))

false-has_id :
    (id : ℕ) (peers : List PeerInfo)
    → All (λ (other : PeerInfo). other.node_id ≢ id) peers
    → has_id id peers ≡ false
unfolding has_id
false-has_id id [] h = refl
false-has_id id (peer ∷ peers) h =
    let rest = false-has_id id peers h.1 in let differs = h.0 in ground (arith, rest, differs)

has_id-find_peer :
    (id : ℕ) (peers : List PeerInfo) → has_id id peers ≡ true → find_peer id peers ≢ none
unfolding has_id find_peer
has_id-find_peer id [] h e = ground (arith, h)
has_id-find_peer id (peer ∷ peers) h e = ground (arith, h, e, has_id-find_peer id peers)

find_peer-has_id :
    (id : ℕ) (peers : List PeerInfo) → find_peer id peers ≢ none → has_id id peers ≡ true
unfolding has_id find_peer
find_peer-has_id id [] h = absurd (h refl)
find_peer-has_id id (peer ∷ peers) h = elim (Bool-cases (peer.node_id == id)) [
  | inl same ↦ ground (arith, same)
  | inr other ↦
      let rest = find_peer-has_id id peers λ e. h (ground (arith, other, e)) in
      ground (arith, other, rest)
]

validate_peers-Distinct :
    (local_id leader : ℕ) (peers : List PeerInfo) (seen_local seen_leader : Bool)
    → is_ok (validate_peers local_id leader peers seen_local seen_leader) ≡ true
    → Distinct peers
      × ((seen_local || has_id local_id peers) ≡ true)
      × ((seen_leader || has_id leader peers) ≡ true)
unfolding validate_peers has_id
validate_peers-Distinct local_id leader [] seen_local seen_leader h =
    (tt, ground (arith, h), ground (arith, h))
validate_peers-Distinct local_id leader (peer ∷ peers) seen_local seen_leader h =
    let fresh_id : has_id peer.node_id peers ≡ false = ground (arith, h) in
    let (apart, there, lead) =
      validate_peers-Distinct local_id leader peers (seen_local || peer.node_id == local_id)
        (seen_leader || peer.node_id == leader) (ground (arith, h, fresh_id)) in
    ((has_id-false peer.node_id peers fresh_id, apart), ground (arith, there), ground (arith, lead))

Distinct-validate_peers :
    (local_id leader : ℕ) (peers : List PeerInfo) (seen_local seen_leader : Bool)
    → Distinct peers
    → (seen_local || has_id local_id peers) ≡ true
    → (seen_leader || has_id leader peers) ≡ true
    → is_ok (validate_peers local_id leader peers seen_local seen_leader) ≡ true
unfolding validate_peers has_id
Distinct-validate_peers local_id leader [] seen_local seen_leader apart there lead =
    ground (arith, there, lead)
Distinct-validate_peers local_id leader (peer ∷ peers) seen_local seen_leader (first, apart) there
      lead =
    let fresh_id = false-has_id peer.node_id peers first in
    let rest =
      Distinct-validate_peers local_id leader peers (seen_local || peer.node_id == local_id)
        (seen_leader || peer.node_id == leader) apart (ground (arith, there))
        (ground (arith, lead)) in
    ground (arith, fresh_id, rest)

or_cases : (a c : Bool) → (a || c) ≡ true → (a ≡ true) ⊎ (c ≡ true)
or_cases true c h = inl refl
or_cases false c h = inr h

validate-ok :
    (local_id leader : ℕ) (peers : List PeerInfo)
    → is_ok (validate (record { local_node_id = local_id; leader_node_id = leader; peers = peers }))
      ≡ true
    → IsValid (record { local_node_id = local_id; leader_node_id = leader; peers = peers })
unfolding validate
validate-ok local_id leader [] h = absurd (ground (arith, h))
validate-ok local_id leader (peer ∷ peers) h =
    let named : (local_id == 0) ≡ false = ground (arith, h) in
    let (apart, there, lead) =
      validate_peers-Distinct local_id leader (peer ∷ peers) false (leader == 0)
        (ground (arith, h, named)) in
    (
      λ zero_id. ground (arith, named, zero_id),
      apart,
      has_id-find_peer local_id (peer ∷ peers) there,
      elim (or_cases (leader == 0) _ lead) [
        | inl absent ↦ inl (==→eq leader 0 absent)
        | inr known ↦ inr (has_id-find_peer leader (peer ∷ peers) known)
      ],
    )

ok-validate :
    (local_id leader : ℕ) (peers : List PeerInfo)
    → IsValid (record { local_node_id = local_id; leader_node_id = leader; peers = peers })
    → is_ok (validate (record { local_node_id = local_id; leader_node_id = leader; peers = peers }))
      ≡ true
unfolding validate
ok-validate local_id leader [] (named, apart, there, lead) =
    absurd (there (unfold find_peer in refl))
ok-validate local_id leader (peer ∷ peers) (named, apart, there, lead) =
    let known : (leader == 0 || has_id leader (peer ∷ peers)) ≡ true = elim lead [
      | inl absent ↦ ground (arith, absent)
      | inr found ↦ ground (arith, find_peer-has_id leader (peer ∷ peers) found)
    ] in
    let rest =
      Distinct-validate_peers local_id leader (peer ∷ peers) false (leader == 0) apart
        (find_peer-has_id local_id (peer ∷ peers) there) known in
    ground (arith, named, rest)

-- Validate accepts a configuration exactly when its own id is not 0, no two peers have the same id,
-- FindPeer finds the own id, and it finds the leader's id unless that is 0.
pub validate_iff : (config : ClusterConfig) → (is_ok (validate config) ≡ true) ↔ IsValid config
validate_iff config = (
  validate-ok config.local_node_id config.leader_node_id config.peers,
  ok-validate config.local_node_id config.leader_node_id config.peers,
)
