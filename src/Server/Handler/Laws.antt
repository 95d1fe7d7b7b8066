-- ===== src/Server/Handler/Laws.antt =====
-- What an answer of the handler says.
use neural_kv.Prelude.{
  ℕ, ◌≡◌, ◌≢◌, ◌↔◌, ◌⊎◌, inl, inr, refl, List, [], Bool, true, false, arith, Bool-cases,
}
use neural_kv.Status.{Status, ErrorCode}
use neural_kv.Result.{ok, err, Result-cases}
use neural_kv.Bytes.{IsU32, IsU64}
use neural_kv.Protocol.{ClientRequest, ClientResponse, Opcode, ClusterOpcode, ResponseStatus}
use neural_kv.Raft.RpcCodec.{
  RequestVoteRequest, encode_request_vote_request, decode_request_vote_response,
}
use neural_kv.Persistence.WalRecord.{WalOp}
use neural_kv.Raft.RpcCodec.RoundTrip.{request_vote_request_round, request_vote_response_round}
use neural_kv.Server.Handler.{
  Backend, to_response_status, handle_write, proposed, handle_vote, handle, handle_get, read_value,
  handle_cluster,
}

status_of_error :
    (code : ErrorCode)
    → (to_response_status code ≡ ResponseStatus.not_found ↔ code ≡ ErrorCode.not_found)
      × (to_response_status code ≡ ResponseStatus.ok ↔ code ≡ ErrorCode.ok)
unfolding to_response_status
status_of_error ErrorCode.ok = ground arith
status_of_error ErrorCode.not_found = ground arith
status_of_error ErrorCode.invalid_argument = ground arith
status_of_error ErrorCode.io_error = ground arith
status_of_error ErrorCode.internal = ground arith

module _ {S : Type 0} (b : Backend S) where
  committed_write :
      (id : ℕ) (op : WalOp) (key value : List ℕ) (direct : S → Status × S) (s : S)
      → b.in_cluster ≡ true
      → (handle_write b id op key value direct s).0.status ≡ ResponseStatus.ok
      → (b.is_leader s ≡ true)
        × ((b.propose op key value s).0.code ≡ ErrorCode.ok)
        × ((handle_write b id op key value direct s).1 ≡ (b.propose op key value s).1)
  unfolding handle_write proposed
  committed_write id op key value direct s cluster good = ground (arith, cluster, good)

  -- What a response says of a read that failed: no value, and NOT_FOUND or OK only if the status does.
  abbrev pub Refuses : Status → ClientResponse → Type 0
  Refuses why response =
      (response.value ≡ [])
      × (response.status ≡ ResponseStatus.not_found ↔ why.code ≡ ErrorCode.not_found)
      × (response.status ≡ ResponseStatus.ok ↔ why.code ≡ ErrorCode.ok)

  read_value-answers :
      (id : ℕ) (key : List ℕ) (s : S)
      → let out = read_value b id key s in
        (out.request_id ≡ id)
        × (((value : List ℕ) × (b.get key s ≡ ok value)
              × (out.status ≡ ResponseStatus.ok)
              × (out.value ≡ value))
            ⊎ ((why : Status) × (b.get key s ≡ err why) × Refuses why out))
  unfolding read_value
  read_value-answers id key s = elim (Result-cases (b.get key s)) [
    | inl (value, found) ↦ rw (read_value, found) (refl, inl (value, refl, refl, refl))
    | inr (why, failed) ↦
        let (missing, fine) = status_of_error why.code in
        rw (read_value, failed) (refl, inr (why, refl, (refl, missing, fine)))
  ]

  confirmed_get :
      (id : ℕ) (key : List ℕ) (s : S)
      → b.in_cluster ≡ true
      → (handle_get b false id key s).0.status ≢ ResponseStatus.wrong_leader
      → (b.is_leader s ≡ true)
        × ((b.confirm_leadership_quorum s).0 ≡ true)
        × (handle_get b false id key s ≡ (
          read_value b id key (b.confirm_leadership_quorum s).1,
          (b.confirm_leadership_quorum s).1,
        ))
  unfolding handle_get
  confirmed_get id key s cluster right = elim (Bool-cases (b.is_leader s)) [
    | inr follower ↦ absurd (right (ground (arith, cluster, follower)))
    | inl leads ↦ elim (Bool-cases (b.confirm_leadership_quorum s).0) [
      | inr lost ↦ absurd (right (ground (arith, cluster, leads, lost)))
      | inl sure ↦ (leads, sure, ground (arith, cluster, leads, sure))
    ]
  ]

  -- In a cluster, with stale reads refused: if Handle's answer to a GET is not WRONG_LEADER, this
  -- node was leader when the GET came in, its quorum was confirmed, nothing else was done to the
  -- state, and the answer has the request's id and is what the storage's Get says of the key after
  -- that confirmation: OK with the value that it returns, or no value, with NOT_FOUND exactly when
  -- Get says so and OK only if the status of Get is Ok.
  pub linearizable_get :
      (req : ClientRequest) (s : S)
      → b.in_cluster ≡ true
      → req.opcode ≡ Opcode.get
      → (handle b false req s).0.status ≢ ResponseStatus.wrong_leader
      → let out = handle b false req s in
        let confirmed = b.confirm_leadership_quorum s in
        (b.is_leader s ≡ true)
        × (confirmed.0 ≡ true)
        × (out.1 ≡ confirmed.1)
        × (out.0.request_id ≡ req.request_id)
        × (((value : List ℕ) × (b.get req.key confirmed.1 ≡ ok value)
              × (out.0.status ≡ ResponseStatus.ok)
              × (out.0.value ≡ value))
            ⊎ ((why : Status) × (b.get req.key confirmed.1 ≡ err why) × Refuses why out.0))
  unfolding handle
  linearizable_get req s cluster get =
      rw (handle, get)
        (λ right.
          let (leads, sure, same) = confirmed_get req.request_id req.key s cluster right in
          let (id, answer) =
            read_value-answers req.request_id req.key (b.confirm_leadership_quorum s).1 in
          rw (same) (leads, sure, refl, id, answer))

  -- In a cluster, a SET or DELETE that is answered with OK came to a leader, and Propose returned
  -- Ok: for a SET, of a set entry with the key and the value of the request; for a DELETE, of a
  -- delete entry with its key and no value. The handler does nothing else to the state.
  pub acknowledged_write :
      (allow_stale_reads : Bool) (req : ClientRequest) (s : S)
      → b.in_cluster ≡ true
      → (req.opcode ≡ Opcode.set) ⊎ (req.opcode ≡ Opcode.delete)
      → (handle b allow_stale_reads req s).0.status ≡ ResponseStatus.ok
      → let out = handle b allow_stale_reads req s in
        (b.is_leader s ≡ true)
        × (((req.opcode ≡ Opcode.set)
              × ((b.propose WalOp.set req.key req.value s).0.code ≡ ErrorCode.ok)
              × (out.1 ≡ (b.propose WalOp.set req.key req.value s).1))
            ⊎ ((req.opcode ≡ Opcode.delete)
                × ((b.propose WalOp.delete req.key [] s).0.code ≡ ErrorCode.ok)
                × (out.1 ≡ (b.propose WalOp.delete req.key [] s).1)))
  unfolding handle
  acknowledged_write allow_stale_reads req s cluster (inl set) =
      rw (handle, set)
        (λ good.
          let (leads, agreed, left) =
            committed_write req.request_id WalOp.set req.key req.value (b.set req.key req.value) s
              cluster good in
          (leads, inl (refl, agreed, left)))
  acknowledged_write allow_stale_reads req s cluster (inr delete) =
      rw (handle, delete)
        (λ good.
          let (leads, agreed, left) =
            committed_write req.request_id WalOp.delete req.key [] (b.delete req.key) s cluster
              good in
          (leads, inr (refl, agreed, left)))

  -- In a cluster, a ClusterRequest that carries an encoded RequestVote whose fields fit their
  -- types, when the term of the node's answer fits too, is answered with OK, its own id and a body
  -- that decodes to the answer of HandleRequestVote, in the state that HandleRequestVote leaves.
  pub vote_over_rpc :
      (id : ℕ) (req : RequestVoteRequest) (s : S)
      → b.in_cluster ≡ true
      → IsU64 req.term
      → IsU32 req.candidate_id
      → IsU64 req.last_log_index
      → IsU64 req.last_log_term
      → IsU64 (b.handle_request_vote req s).0.term
      → let out =
          handle_cluster b
            (record {
              request_id = id;
              opcode = ClusterOpcode.request_vote;
              body = encode_request_vote_request req;
            })
            s in
        (out.0.status ≡ ResponseStatus.ok)
        × (out.0.request_id ≡ id)
        × (decode_request_vote_response out.0.body ≡ ok (b.handle_request_vote req s).0)
        × (out.1 ≡ (b.handle_request_vote req s).1)
  unfolding handle_cluster handle_vote
  vote_over_rpc id req s cluster term candidate index last answer =
      rw (cluster, handle_vote, request_vote_request_round req term candidate index last)
        (refl, refl, request_vote_response_round (b.handle_request_vote req s).0 answer, refl)
