-- ===== src/Tests/Wire.antt =====
-- The wire protocol and the bodies of the RPCs, at sample messages.
use neural_kv.Prelude.{ℕ, List, [], ◌∷◌, ◌++◌, ◌≡◌, refl, arith, take, drop, All}
use neural_kv.Result.{ok}
use neural_kv.Bytes.{IsByte, write_u16_be, write_u32_be, write_u64_be, write_u64_loop}
use neural_kv.Protocol.{Message, Opcode, complete, need_more}
use neural_kv.Protocol.Encode.{encode_client_request, client_request_payload, frame_header}
use neural_kv.Protocol.Frame.{try_parse_frame}
use neural_kv.Protocol.FrameLaws.{encode_message}
use neural_kv.Protocol.Streaming.{
  try_parse_frame-encode, try_parse_frame_prefix, try_parse_frame_canonical,
}
use neural_kv.Raft.RpcCodec.{
  RequestVoteRequest, AppendEntriesRequest, encode_append_entries_request,
  decode_append_entries_request,
}
use neural_kv.Raft.RpcCodec.RoundTrip.{append_entries_request_round}
use neural_kv.Tests.{two_records}

abbrev sample : Message
sample =
    Message.client_request
      (record { request_id = 7; opcode = Opcode.set; key = 107 ∷ []; value = 118 ∷ [] })

abbrev sample_frame : List ℕ
sample_frame =
    78 ∷ 75 ∷ 1 ∷ 1 ∷ 0 ∷ 0 ∷ 0 ∷ 19 ∷ 0 ∷ 0 ∷ 0 ∷ 0 ∷ 0 ∷ 0 ∷ 0 ∷ 7 ∷ 1 ∷ 0 ∷ 0 ∷ 0 ∷ 1 ∷ 107 ∷ 0
    ∷ 0 ∷ 0 ∷ 1 ∷ 118 ∷ []

sample_encoded : encode_message sample ≡ ok sample_frame
unfolding encode_message encode_client_request client_request_payload frame_header write_u16_be
    write_u32_be write_u64_be write_u64_loop
sample_encoded = refl

try_parse_frame-encode_example :
    try_parse_frame (sample_frame ++ (78 ∷ [])) ≡ (complete sample, 78 ∷ [])
try_parse_frame-encode_example =
    try_parse_frame-encode sample sample_frame (78 ∷ []) (omega arith) sample_encoded

try_parse_frame_prefix_example :
    try_parse_frame (take 11 sample_frame) ≡ (need_more, take 11 sample_frame)
try_parse_frame_prefix_example =
    try_parse_frame_prefix sample sample_frame (take 11 sample_frame) 0 (drop 12 sample_frame)
      sample_encoded refl

frame_bytes : All IsByte (sample_frame ++ (78 ∷ []))
frame_bytes = (
  omega arith,
  (
    omega arith,
    (
      omega arith,
      (
        omega arith,
        (
          omega arith,
          (
            omega arith,
            (
              omega arith,
              (
                omega arith,
                (
                  omega arith,
                  (
                    omega arith,
                    (
                      omega arith,
                      (
                        omega arith,
                        (
                          omega arith,
                          (
                            omega arith,
                            (
                              omega arith,
                              (
                                omega arith,
                                (
                                  omega arith,
                                  (
                                    omega arith,
                                    (
                                      omega arith,
                                      (
                                        omega arith,
                                        (
                                          omega arith,
                                          (
                                            omega arith,
                                            (
                                              omega arith,
                                              (
                                                omega arith,
                                                (
                                                  omega arith,
                                                  (omega arith, (omega arith, (omega arith, tt))),
                                                ),
                                              ),
                                            ),
                                          ),
                                        ),
                                      ),
                                    ),
                                  ),
                                ),
                              ),
                            ),
                          ),
                        ),
                      ),
                    ),
                  ),
                ),
              ),
            ),
          ),
        ),
      ),
    ),
  ),
)

try_parse_frame_canonical_example :
    (frame : List ℕ) × (encode_message sample ≡ ok frame)
    × (sample_frame ++ (78 ∷ []) ≡ frame ++ (78 ∷ []))
try_parse_frame_canonical_example =
    try_parse_frame_canonical (sample_frame ++ (78 ∷ [])) sample (78 ∷ []) frame_bytes
      try_parse_frame-encode_example

abbrev vote_sample : RequestVoteRequest
vote_sample = record { term = 4; candidate_id = 2; last_log_index = 9; last_log_term = 3 }

abbrev entries_sample : AppendEntriesRequest
entries_sample = record {
  term = 4;
  leader_id = 2;
  prev_log_index = 0;
  prev_log_term = 0;
  leader_commit = 1;
  entries = two_records;
}

append_entries_request_round_example :
    decode_append_entries_request (encode_append_entries_request entries_sample) ≡ ok entries_sample
append_entries_request_round_example = append_entries_request_round entries_sample (record {
  term_fits = omega arith;
  leader_fits = omega arith;
  prev_index_fits = omega arith;
  prev_term_fits = omega arith;
  commit_fits = omega arith;
  count_fits = omega arith;
  entries_fit = (
    record {
      term_fits = omega arith;
      index_fits = omega arith;
      key_fits = omega arith;
      value_fits = omega arith;
    },
    (
      record {
        term_fits = omega arith;
        index_fits = omega arith;
        key_fits = omega arith;
        value_fits = omega arith;
      },
      tt,
    ),
  );
})
