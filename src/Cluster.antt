-- ===== src/Cluster.antt =====
-- src/cluster: the configuration that a node knows its peers by (cluster/cluster_config.h).
pub mod Transport
pub mod Config
use neural_kv.Prelude.{ℕ, List, [], ◌∷◌, Option, none, some, ◌==◌, if◌then◌else◌}

pub record PeerInfo : Type 0 where
  pub node_id : ℕ
  pub host : List ℕ
  pub port : ℕ

pub record ClusterConfig : Type 0 where
  pub local_node_id : ℕ
  pub leader_node_id : ℕ
  pub peers : List PeerInfo

-- FindPeer: the first peer with the id.
unfoldable pub find_peer : ℕ → List PeerInfo → Option PeerInfo
find_peer node_id [] = none
find_peer node_id (peer ∷ peers) =
    let rest = find_peer node_id peers in if peer.node_id == node_id then some peer else rest
