-- ===== src/Cluster/Config/Loaded.antt =====
-- What a configuration that LoadClusterConfig returns is like.
use neural_kv.Prelude.{
  ℕ, ◌≡◌, ◌<◌, ◌^◌, ◌%◌, ap, ◌∙◌, subst, inl, inr, List, [], ◌∷◌, ◌++◌, ◌||◌, Option, none, some,
  arith, All, All-append, Bool-cases, Option-cases, eqb, not,
}
use neural_kv.Status.{is_ok}
use neural_kv.Result.{ok, Result-cases}
use neural_kv.Protocol.{is_empty}
use neural_kv.Cluster.{PeerInfo, ClusterConfig}
use neural_kv.Cluster.Config.{
  read_peer, parse_peer, starts_peer, assign, parse_assignment, assign_text, parse_line, all_digits,
  stoul, trim, is_comment, node_id_key, leader_id_key,
}
use neural_kv.Cluster.Config.Load.{
  validate, parse_lines, no_config, validated, load_cluster_config, lines,
}
use neural_kv.Cluster.Config.Validity.{IsValid, validate_iff}

-- The numbers of a peer are positive and fit their types.
abbrev pub PeerFits : PeerInfo → Type 0
PeerFits peer =
    (0 < peer.node_id) × (peer.node_id < 2 ^ 32) × (0 < peer.port) × (peer.port < 2 ^ 16)

abbrev pub ConfigFits : ClusterConfig → Type 0
ConfigFits config =
    (config.local_node_id < 2 ^ 32) × (config.leader_node_id < 2 ^ 32) × All PeerFits config.peers

parse_peer-ConfigFits :
    (line : List ℕ) (config config' : ClusterConfig)
    → ConfigFits config
    → parse_peer line config ≡ ok config'
    → ConfigFits config'
unfolding parse_peer
parse_peer-ConfigFits line config config' (small, lead, peers) e =
    elim (Option-cases (read_peer line)) [
      | inl malformed ↦ absurd (ground (arith, malformed, e))
      | inr ((id, host, port), there) ↦
          let fits : PeerFits (record { node_id = id; host = host; port = port }) = (
            ground (arith, there, e),
            ground (arith, there, e),
            ground (arith, there, e),
            ground (arith, there, e),
          ) in
          let same : (record config {
            peers = config.peers ++ (record { node_id = id; host = host; port = port } ∷ []);
          })
              ≡ config' =
            ground (arith, there, e) in
          subst {A = ClusterConfig} ConfigFits same (
            small,
            lead,
            All-append PeerFits config.peers
                (record { node_id = id; host = host; port = port } ∷ []) peers (fits, tt),
          )
    ]

word_fits : (value : ℕ) → value % 2 ^ 32 < 2 ^ 32
word_fits value = omega arith

assign-ConfigFits :
    (key : List ℕ) (value : ℕ) (config config' : ClusterConfig)
    → ConfigFits config
    → assign key value config ≡ ok config'
    → ConfigFits config'
unfolding assign
assign-ConfigFits key value config config' (small, lead, peers) e =
    elim (Bool-cases (eqb key node_id_key)) [
      | inl is_node ↦
          let same : (record config { local_node_id = value % 2 ^ 32 }) ≡ config' =
            ground (arith, is_node, e) in
          subst {A = ClusterConfig} ConfigFits same (word_fits value, lead, peers)
      | inr not_node ↦ elim (Bool-cases (eqb key leader_id_key)) [
        | inl is_leader ↦
            let same : (record config { leader_node_id = value % 2 ^ 32 }) ≡ config' =
              ground (arith, not_node, is_leader, e) in
            subst {A = ClusterConfig} ConfigFits same (small, word_fits value, peers)
        | inr other ↦ absurd (ground (arith, not_node, other, e))
      ]
    ]

assign_text-ConfigFits :
    (before rest : List ℕ) (config config' : ClusterConfig)
    → ConfigFits config
    → assign_text before rest config ≡ some (ok config')
    → ConfigFits config'
unfolding assign_text
assign_text-ConfigFits before [] config config' fits e = absurd (ground (arith, e))
assign_text-ConfigFits before (equals ∷ behind) config config' fits e =
    elim (Bool-cases (is_empty (trim behind) || not (all_digits (trim behind)))) [
      | inl bad ↦ absurd (ground (arith, bad, e))
      | inr good ↦ elim (Option-cases (stoul (trim behind))) [
        | inl thrown ↦ absurd (ground (arith, good, thrown, e))
        | inr (parsed, there) ↦
            assign-ConfigFits (trim before) parsed config config' fits
              (ground (arith, good, there, e))
      ]
    ]

parse_assignment-ConfigFits :
    (line : List ℕ) (config config' : ClusterConfig)
    → ConfigFits config
    → parse_assignment line config ≡ some (ok config')
    → ConfigFits config'
unfolding parse_assignment
parse_assignment-ConfigFits line config config' fits e =
    assign_text-ConfigFits _ _ config config' fits e

parse_line-ConfigFits :
    (line : List ℕ) (config config' : ClusterConfig)
    → ConfigFits config
    → parse_line line config ≡ some (ok config')
    → ConfigFits config'
unfolding parse_line
parse_line-ConfigFits line config config' fits e = elim (Bool-cases (is_comment (trim line))) [
  | inl comment ↦
      let same : config ≡ config' = ground (arith, comment, e) in subst ConfigFits same fits
  | inr text ↦ elim (Bool-cases (starts_peer (trim line))) [
    | inl peer ↦
        parse_peer-ConfigFits (trim line) config config' fits (ground (arith, text, peer, e))
    | inr other ↦
        parse_assignment-ConfigFits (trim line) config config' fits (ground (arith, text, other, e))
  ]
]

parse_lines-ConfigFits :
    (ls : List (List ℕ)) (config config' : ClusterConfig)
    → ConfigFits config
    → parse_lines ls config ≡ some (ok config')
    → ConfigFits config'
unfolding parse_lines
parse_lines-ConfigFits [] config config' fits e =
    let same : config ≡ config' = ground (arith, e) in subst ConfigFits same fits
parse_lines-ConfigFits (line ∷ more) config config' fits e =
    elim (Option-cases (parse_line line config)) [
      | inl thrown ↦ absurd (ground (arith, thrown, e))
      | inr (r, there) ↦ elim (Result-cases r) [
        | inl (mid, fine) ↦
            parse_lines-ConfigFits more mid config'
              (parse_line-ConfigFits line config mid fits (there ∙ ap some fine))
              (ground (arith, there, fine, e))
        | inr (status, bad) ↦ absurd (ground (arith, there, bad, e))
      ]
    ]

-- A configuration that LoadClusterConfig returns is valid, its own id and its leader's id fit 32
-- bits, and every peer has an id that is positive and fits 32 bits and a port that is positive and
-- fits 16.
pub load_cluster_config-ConfigFits :
    (file : Option (List ℕ)) (config : ClusterConfig)
    → load_cluster_config file ≡ some (ok config)
    → IsValid config × ConfigFits config
unfolding load_cluster_config validated
load_cluster_config-ConfigFits none config e = absurd (ground (arith, e))
load_cluster_config-ConfigFits (some file) config e =
    elim (Option-cases (parse_lines (lines file) no_config)) [
      | inl thrown ↦ absurd (ground (arith, thrown, e))
      | inr (r, there) ↦ elim (Result-cases r) [
        | inr (status, bad) ↦ absurd (ground (arith, there, bad, e))
        | inl (mid, fine) ↦ elim (Bool-cases (is_ok (validate mid))) [
          | inr refused ↦ absurd (ground (arith, there, fine, refused, e))
          | inl accepted ↦
              let same : mid ≡ config = ground (arith, there, fine, accepted, e) in
              subst {A = ClusterConfig} (λ c. IsValid c × ConfigFits c) same
                (
                  (validate_iff mid).0 accepted,
                  parse_lines-ConfigFits (lines file) no_config mid (omega arith, omega arith, tt)
                      (there ∙ ap some fine),
                )
        ]
      ]
    ]
