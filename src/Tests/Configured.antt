-- ===== src/Tests/Configured.antt =====
-- The configuration of a cluster and the descriptors of its transport.
use neural_kv.Prelude.{ℕ, ◌≡◌, ◌↔◌, refl, List, [], ◌∷◌, ◌++◌, true, eqb, none, some}
use neural_kv.Bytes.{write_u16_be}
use neural_kv.Status.{is_ok, error, ErrorCode}
use neural_kv.Result.{ok, err}
use neural_kv.Protocol.{invalid, ClusterOpcode}
use neural_kv.Protocol.Encode.{encode_cluster_request, frame_header}
use neural_kv.Net.Socket.{failed, write_loop}
use neural_kv.Cluster.{ClusterConfig}
use neural_kv.Cluster.Config.{
  trim_front, trim_back, span, decimal, unsigned_number, signed_number, read_word, read_peer,
  parse_peer, starts_peer, all_digits, stoul, assign, assign_text, parse_assignment, parse_line,
}
use neural_kv.Cluster.Config.Load.{
  has_id, validate_peers, validate, lines_from, parse_lines, validated, load_cluster_config,
}
use neural_kv.Cluster.Config.Validity.{IsValid, validate_iff}
use neural_kv.Cluster.Config.Loaded.{ConfigFits, load_cluster_config-ConfigFits}
use neural_kv.Cluster.Transport.{Called, send_rpc, close_all}
use neural_kv.Cluster.Transport.Descriptors.{dial_all, send_rpc_closes, close_all-dial_all}

-- node_id = 1
abbrev node_line : List ℕ
node_line = 110 ∷ 111 ∷ 100 ∷ 101 ∷ 95 ∷ 105 ∷ 100 ∷ 32 ∷ 61 ∷ 32 ∷ 49 ∷ []

-- peer 1 a 80
abbrev peer_line : List ℕ
peer_line = 112 ∷ 101 ∷ 101 ∷ 114 ∷ 32 ∷ 49 ∷ 32 ∷ 97 ∷ 32 ∷ 56 ∷ 48 ∷ []

abbrev config_file : List ℕ
config_file = (35 ∷ 10 ∷ []) ++ (node_line ++ (10 ∷ (peer_line ++ (10 ∷ []))))

abbrev sample_config : ClusterConfig
sample_config = record {
  local_node_id = 1;
  leader_node_id = 0;
  peers = record { node_id = 1; host = 97 ∷ []; port = 80 } ∷ [];
}

sample_loaded : load_cluster_config (some config_file) ≡ some (ok sample_config)
unfolding eqb load_cluster_config validated validate validate_peers has_id parse_lines lines_from
    parse_line parse_assignment assign_text assign stoul all_digits starts_peer parse_peer read_peer
    read_word signed_number unsigned_number decimal span trim_back trim_front
sample_loaded = refl

load_cluster_config-ConfigFits_example : IsValid sample_config × ConfigFits sample_config
load_cluster_config-ConfigFits_example =
    load_cluster_config-ConfigFits (some config_file) sample_config sample_loaded

validate_iff_example : (is_ok (validate sample_config) ≡ true) ↔ IsValid sample_config
validate_iff_example = validate_iff sample_config

-- node_id=4294967297: one more than the largest id and one, which the cast takes for 1.
abbrev wide_line : List ℕ
wide_line =
    110 ∷ 111 ∷ 100 ∷ 101 ∷ 95 ∷ 105 ∷ 100 ∷ 61 ∷ 52 ∷ 50 ∷ 57 ∷ 52 ∷ 57 ∷ 54 ∷ 55 ∷ 50 ∷ 57 ∷ 55
    ∷ []

wide_id : parse_line wide_line sample_config ≡ some (ok sample_config)
unfolding eqb parse_line parse_assignment assign_text assign stoul all_digits starts_peer decimal
    span trim_back trim_front
wide_id = refl

-- node_id=99999999999999999999 throws.
thrown_id :
    parse_line
      ((110 ∷ 111 ∷ 100 ∷ 101 ∷ 95 ∷ 105 ∷ 100 ∷ 61 ∷ [])
        ++ (57 ∷ 57 ∷ 57 ∷ 57 ∷ 57 ∷ 57 ∷ 57 ∷ 57 ∷ 57 ∷ 57 ∷ 57 ∷ 57 ∷ 57 ∷ 57 ∷ 57 ∷ 57 ∷ 57 ∷ 57
            ∷ 57 ∷ 57 ∷ []))
      sample_config
    ≡ none
unfolding eqb parse_line parse_assignment assign_text assign stoul all_digits starts_peer decimal
    span trim_back trim_front
thrown_id = refl

close_all-dial_all_example :
    let t = close_all (
      dial_all
        ((1, ok 7) ∷ (2, err (invalid "no")) ∷ (1, ok 8) ∷ [])
        (record { peer_fds = []; open_fds = 3 ∷ [] })) in
    (t.open_fds ≡ 3 ∷ []) × (t.peer_fds ≡ [])
close_all-dial_all_example =
    close_all-dial_all ((1, ok 7) ∷ (2, err (invalid "no")) ∷ (1, ok 8) ∷ []) (3 ∷ [])

abbrev refused_call : Called
refused_call =
    send_rpc (ok 9) (failed "reset" ∷ []) []
      (record { request_id = 7; opcode = ClusterOpcode.ping; body = [] }) (3 ∷ [])

refused_result : refused_call.result ≡ some (err (error ErrorCode.io_error "reset"))
unfolding send_rpc encode_cluster_request frame_header write_u16_be write_loop
refused_result = refl

send_rpc_closes_example : refused_call.open_fds ≡ 3 ∷ []
send_rpc_closes_example =
    send_rpc_closes (ok 9) (failed "reset" ∷ []) []
      (record { request_id = 7; opcode = ClusterOpcode.ping; body = [] }) (3 ∷ [])
      (err (error ErrorCode.io_error "reset")) refused_result
