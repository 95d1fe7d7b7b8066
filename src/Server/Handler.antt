-- ===== src/Server/Handler.antt =====
-- server/handler.h and server/handler.cpp: RequestHandler. What it is built on is a storage, and a node
-- if there is a cluster: `Backend` has the calls that the handler makes on them, each with the state it
-- leaves.
pub mod Laws
use neural_kv.Prelude.{ℕ, List, [], ◌∷◌, Bool, true, false, not, ◌&&◌, ◌||◌, if◌then◌else◌}
use neural_kv.Status.{Status, ErrorCode, is_ok}
use neural_kv.Result.{Result, ok, err}
use neural_kv.Protocol.{
  ClientRequest, ClientResponse, ClusterRequest, ClusterResponse, Opcode, ClusterOpcode,
  ResponseStatus,
}
use neural_kv.Raft.RpcCodec.{
  RequestVoteRequest, RequestVoteResponse, AppendEntriesRequest, AppendEntriesResponse,
  decode_request_vote_request, encode_request_vote_response, decode_append_entries_request,
  encode_append_entries_response,
}
use neural_kv.Persistence.WalRecord.{WalOp}

-- ToResponseStatus
unfoldable pub to_response_status : ErrorCode → ResponseStatus
to_response_status ErrorCode.ok = ResponseStatus.ok
to_response_status ErrorCode.not_found = ResponseStatus.not_found
to_response_status ErrorCode.invalid_argument = ResponseStatus.bad_request
to_response_status ErrorCode.io_error = ResponseStatus.internal_error
to_response_status ErrorCode.internal = ResponseStatus.internal_error

-- The calls that the handler makes, over the state `S` of storage and node together. `in_cluster` is
-- `raft_ != nullptr`.
pub record Backend (S : Type 0) : Type 0 where
  pub in_cluster : Bool
  pub is_leader : S → Bool
  pub leader_id : S → ℕ
  pub propose : WalOp → List ℕ → List ℕ → S → Status × S
  pub confirm_leadership_quorum : S → Bool × S
  pub set : List ℕ → List ℕ → S → Status × S
  pub get : List ℕ → S → Result (List ℕ)
  pub delete : List ℕ → S → Status × S
  pub handle_request_vote : RequestVoteRequest → S → RequestVoteResponse × S
  pub handle_append_entries : AppendEntriesRequest → S → AppendEntriesResponse × S

module _ {S : Type 0} (b : Backend S) where
  -- IsLeader: without a cluster there is no other.
  abbrev pub may_lead : S → Bool
  may_lead s = not b.in_cluster || b.is_leader s

  abbrev pub client_response : ℕ → ResponseStatus → List ℕ → ℕ → ClientResponse
  client_response id status value hint = record {
    request_id = id;
    status = status;
    value = value;
    leader_hint = hint;
  }

  -- The answer to a Propose; kInvalidArgument is its signal for a lost leadership.
  unfoldable pub proposed : ℕ → Status → S → ClientResponse
  proposed id status s = elim status.code [
    | ErrorCode.ok ↦ client_response id ResponseStatus.ok [] 0
    | ErrorCode.invalid_argument ↦ client_response id ResponseStatus.wrong_leader [] (b.leader_id s)
    | _ ↦ client_response id ResponseStatus.internal_error [] 0
  ]

  -- The case of SET and the case of DELETE: `direct` is the storage's operation.
  unfoldable pub handle_write :
      ℕ → WalOp → List ℕ → List ℕ → (S → Status × S) → S → ClientResponse × S
  unfolding proposed
  handle_write id op key value direct s =
      let (agreed, s₁) = b.propose op key value s in
      let (stored, s₂) = direct s in
      if not (may_lead s)
      then (client_response id ResponseStatus.wrong_leader [] (b.leader_id s), s)
      else if b.in_cluster
      then (proposed id agreed s₁, s₁)
      else (client_response id (to_response_status stored.code) [] 0, s₂)

  -- The read from the map.
  unfoldable pub read_value : ℕ → List ℕ → S → ClientResponse
  read_value id key s = elim (b.get key s) [
    | ok value ↦ client_response id ResponseStatus.ok value 0
    | err status ↦ client_response id (to_response_status status.code) [] 0
  ]

  -- The case of GET: in a cluster, unless stale reads are allowed, a leader confirms its quorum first.
  unfoldable pub handle_get : Bool → ℕ → List ℕ → S → ClientResponse × S
  unfolding read_value
  handle_get allow_stale_reads id key s =
      let (confirmed, s₁) = b.confirm_leadership_quorum s in
      if not (b.in_cluster && not allow_stale_reads)
      then (read_value id key s, s)
      else if not (may_lead s)
      then (client_response id ResponseStatus.wrong_leader [] (b.leader_id s), s)
      else if not confirmed
      then (client_response id ResponseStatus.wrong_leader [] (b.leader_id s₁), s₁)
      else (read_value id key s₁, s₁)

  -- Handle
  unfoldable pub handle : Bool → ClientRequest → S → ClientResponse × S
  handle allow_stale_reads req s = elim req.opcode [
    | Opcode.set ↦
        handle_write req.request_id WalOp.set req.key req.value (b.set req.key req.value) s
    | Opcode.get ↦ handle_get allow_stale_reads req.request_id req.key s
    | Opcode.delete ↦ handle_write req.request_id WalOp.delete req.key [] (b.delete req.key) s
    | Opcode.unnamed other ↦ (client_response req.request_id ResponseStatus.bad_request [] 0, s)
  ]

  abbrev pub cluster_response : ℕ → ResponseStatus → List ℕ → ClusterResponse
  cluster_response id status body = record { request_id = id; status = status; body = body }

  -- The cases of HandleCluster that decode a body, call the node and encode its answer.
  unfoldable pub handle_vote : ℕ → List ℕ → S → ClusterResponse × S
  handle_vote id body s = elim (decode_request_vote_request body) [
    | err status ↦ (cluster_response id ResponseStatus.bad_request [], s)
    | ok req ↦
        let (resp, s₁) = b.handle_request_vote req s in
        (cluster_response id ResponseStatus.ok (encode_request_vote_response resp), s₁)
  ]

  unfoldable pub handle_entries : ℕ → List ℕ → S → ClusterResponse × S
  handle_entries id body s = elim (decode_append_entries_request body) [
    | err status ↦ (cluster_response id ResponseStatus.bad_request [], s)
    | ok req ↦
        let (resp, s₁) = b.handle_append_entries req s in
        (cluster_response id ResponseStatus.ok (encode_append_entries_response resp), s₁)
  ]

  -- HandleCluster; the body of the answer to a ping is "pong".
  unfoldable pub handle_cluster : ClusterRequest → S → ClusterResponse × S
  handle_cluster req s = elim req.opcode [
    | ClusterOpcode.ping ↦
        (cluster_response req.request_id ResponseStatus.ok (0x70 ∷ 0x6F ∷ 0x6E ∷ 0x67 ∷ []), s)
    | ClusterOpcode.pong ↦ (cluster_response req.request_id ResponseStatus.bad_request [], s)
    | ClusterOpcode.request_vote ↦
        if not b.in_cluster
        then (cluster_response req.request_id ResponseStatus.bad_request [], s)
        else handle_vote req.request_id req.body s
    | ClusterOpcode.append_entries ↦
        if not b.in_cluster
        then (cluster_response req.request_id ResponseStatus.bad_request [], s)
        else handle_entries req.request_id req.body s
  ]
