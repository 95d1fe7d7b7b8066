-- ===== src/Cluster/Config/Load.antt =====
-- cluster/cluster_config.cpp: Validate, and LoadClusterConfig with the lines of its file.
use neural_kv.Prelude.{
  ℕ, List, [], ◌∷◌, ◌++◌, Bool, false, Option, none, some, ◌||◌, not, ◌==◌, if◌then◌else◌,
}
use neural_kv.Status.{Status, ErrorCode, okay, error, is_ok}
use neural_kv.Result.{Result, ok, err}
use neural_kv.Protocol.{invalid}
use neural_kv.Cluster.{PeerInfo, ClusterConfig}
use neural_kv.Cluster.Config.{parse_line}

-- The inner loop of Validate: whether a later peer has the id.
unfoldable pub has_id : ℕ → List PeerInfo → Bool
has_id id [] = false
has_id id (peer ∷ peers) = let rest = has_id id peers in peer.node_id == id || rest

-- The outer loop, with `seen_local` and `seen_leader` as they stand before its rounds, and what follows it.
unfoldable pub validate_peers : ℕ → ℕ → List PeerInfo → Bool → Bool → Status
unfolding has_id
validate_peers local_id leader [] seen_local seen_leader =
    if not seen_local
    then invalid "local node_id is not in the peer list"
    else if not seen_leader
    then invalid "leader_id is not in the peer list"
    else okay
validate_peers local_id leader (peer ∷ peers) seen_local seen_leader =
    let rest =
      validate_peers local_id leader peers (seen_local || peer.node_id == local_id)
        (seen_leader || peer.node_id == leader) in
    if has_id peer.node_id peers then invalid "duplicate peer id" else rest

-- Validate
unfoldable pub validate : ClusterConfig → Status
unfolding validate_peers
validate config =
    if config.local_node_id == 0
    then invalid "cluster config missing node_id"
    else elim config.peers [
      | [] ↦ invalid "cluster config has no peers"
      | peer ∷ peers ↦
          validate_peers config.local_node_id config.leader_node_id (peer ∷ peers) false
            (config.leader_node_id == 0)
    ]

-- The calls of std::getline on the file, `line` being what the current one has read: the pieces between
-- newlines, without an empty one at the end.
unfoldable pub lines_from : List ℕ → List ℕ → List (List ℕ)
lines_from [] [] = []
lines_from (l ∷ ls) [] = (l ∷ ls) ∷ []
lines_from line (c ∷ cs) =
    let rest = lines_from (if c == 10 then [] else line ++ (c ∷ [])) cs in
    if c == 10 then line ∷ rest else rest

abbrev pub lines : List ℕ → List (List ℕ)
lines file = lines_from [] file

-- The loop of LoadClusterConfig over the lines.
unfoldable pub parse_lines : List (List ℕ) → ClusterConfig → Option (Result ClusterConfig)
parse_lines [] config = some (ok config)
parse_lines (line ∷ more) config = elim (parse_line line config) [
  | none ↦ none
  | some (err status) ↦ some (err status)
  | some (ok config') ↦ parse_lines more config'
]

abbrev pub no_config : ClusterConfig
no_config = record { local_node_id = 0; leader_node_id = 0; peers = [] }

unfoldable pub validated : ClusterConfig → Result ClusterConfig
unfolding validate
validated config = if is_ok (validate config) then ok config else err (validate config)

-- LoadClusterConfig: the file's bytes, if it can be opened. An error leaves `out` as it was. `none` is an
-- exception that nobody catches.
unfoldable pub load_cluster_config : Option (List ℕ) → Option (Result ClusterConfig)
load_cluster_config none = some (err (error ErrorCode.io_error "open cluster config"))
load_cluster_config (some file) = elim (parse_lines (lines file) no_config) [
  | none ↦ none
  | some (err status) ↦ some (err status)
  | some (ok config) ↦ some (validated config)
]
