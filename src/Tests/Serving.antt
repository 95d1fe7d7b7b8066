-- ===== src/Tests/Serving.antt =====
-- The handler of requests, over a sample backend: a leader whose state is the number of calls that went
-- to its log.
use neural_kv.Prelude.{ℕ, ◌+◌, List, [], ◌∷◌, ◌≡◌, ◌⊎◌, refl, inl, true, false, arith}
use neural_kv.Status.{Status, ErrorCode, okay}
use neural_kv.Result.{ok, err}
use neural_kv.Protocol.{ClientRequest, Opcode, ClusterOpcode, ResponseStatus}
use neural_kv.Persistence.WalRecord.{WalOp}
use neural_kv.Raft.RpcCodec.{
  RequestVoteRequest, encode_request_vote_request, decode_request_vote_response,
}
use neural_kv.Server.Handler.{
  Backend, handle, handle_get, read_value, handle_write, proposed, handle_cluster,
}
use neural_kv.Server.Handler.Laws.{Refuses, linearizable_get, acknowledged_write, vote_over_rpc}

abbrev pub counting : Backend ℕ
counting = record {
  in_cluster = true;
  is_leader = λ s. true;
  leader_id = λ s. 1;
  propose = λ op key value s. (okay, s + 1);
  confirm_leadership_quorum = λ s. (true, s);
  set = λ key value s. (okay, s);
  get = λ key s. ok (118 ∷ []);
  delete = λ key s. (okay, s);
  handle_request_vote = λ req s. (record { term = req.term; vote_granted = true }, s);
  handle_append_entries = λ req s. (record { term = req.term; success = true }, s);
}

abbrev read : ClientRequest
read = record { request_id = 7; opcode = Opcode.get; key = 107 ∷ []; value = [] }

right_status : (handle counting false read 0).0.status ≡ ResponseStatus.ok
unfolding handle handle_get read_value
right_status = refl

linearizable_get_example :
    (counting.is_leader 0 ≡ true)
    × ((counting.confirm_leadership_quorum 0).0 ≡ true)
    × ((handle counting false read 0).1 ≡ 0)
    × ((handle counting false read 0).0.request_id ≡ 7)
    × (((value : List ℕ) × (counting.get (107 ∷ []) 0 ≡ ok value)
          × ((handle counting false read 0).0.status ≡ ResponseStatus.ok)
          × ((handle counting false read 0).0.value ≡ value))
        ⊎ ((why : Status) × (counting.get (107 ∷ []) 0 ≡ err why)
            × Refuses counting why (handle counting false read 0).0))
linearizable_get_example =
    linearizable_get counting read 0 refl refl
      (λ wrong. absurd (ground (arith, right_status, wrong)))

abbrev write : ClientRequest
write = record { request_id = 7; opcode = Opcode.set; key = 107 ∷ []; value = 118 ∷ [] }

written_ok : (handle counting false write 0).0.status ≡ ResponseStatus.ok
unfolding handle handle_write proposed
written_ok = refl

acknowledged_write_example :
    (counting.is_leader 0 ≡ true)
    × (((Opcode.set ≡ Opcode.set)
          × ((counting.propose WalOp.set (107 ∷ []) (118 ∷ []) 0).0.code ≡ ErrorCode.ok)
          × ((handle counting false write 0).1
              ≡ (counting.propose WalOp.set (107 ∷ []) (118 ∷ []) 0).1))
        ⊎ ((Opcode.set ≡ Opcode.delete)
            × ((counting.propose WalOp.delete (107 ∷ []) [] 0).0.code ≡ ErrorCode.ok)
            × ((handle counting false write 0).1
                ≡ (counting.propose WalOp.delete (107 ∷ []) [] 0).1)))
acknowledged_write_example = acknowledged_write counting false write 0 refl (inl refl) written_ok

abbrev vote_sample : RequestVoteRequest
vote_sample = record { term = 4; candidate_id = 2; last_log_index = 9; last_log_term = 3 }

vote_over_rpc_example :
    let out =
      handle_cluster counting
        (record {
          request_id = 7;
          opcode = ClusterOpcode.request_vote;
          body = encode_request_vote_request vote_sample;
        })
        0 in
    (out.0.status ≡ ResponseStatus.ok)
    × (out.0.request_id ≡ 7)
    × (decode_request_vote_response out.0.body ≡ ok (counting.handle_request_vote vote_sample 0).0)
    × (out.1 ≡ (counting.handle_request_vote vote_sample 0).1)
vote_over_rpc_example =
    vote_over_rpc counting 7 vote_sample 0 refl (omega arith) (omega arith) (omega arith)
      (omega arith) (omega arith)
