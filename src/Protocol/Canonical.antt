-- ===== src/Protocol/Canonical.antt =====
-- What the decoders accept is what the encoders write: a payload has one reading.
use neural_kv.Prelude.{
  ℕ, ◌≡◌, refl, List, [], ◌∷◌, false, arith, append-nil, ltb, not, All, ◌||◌, ◌==◌,
}
use neural_kv.Bytes.{IsByte, IsU64, IsU32, write_u32_be}
use neural_kv.Reader.{at_end}
use neural_kv.Reader.Laws.{
  read_u64-then, read_u32-then, read_u16-then, read_u8-then, read_bytes-then,
}
use neural_kv.Result.{ok, ok_then, refuse_if-then}
use neural_kv.Protocol.{
  ClientRequest, ClientResponse, ClusterRequest, ClusterResponse, is_empty, truncated_payload,
  invalid,
}
use neural_kv.Protocol.Encode.{
  check_value, client_request_payload, client_response_payload, cluster_request_payload,
  cluster_response_payload,
}
use neural_kv.Protocol.Decode.{
  decode_client_request, decode_client_response, decode_cluster_request, decode_cluster_response,
  opcode_of_byte,
}

at_end→nil : (left : List ℕ) → not (at_end left) ≡ false → left ≡ []
at_end→nil [] h = refl
at_end→nil (b ∷ bs) h = cc

pub client_request_canonical :
    (payload : List ℕ) {req : ClientRequest}
    → All IsByte payload
    → decode_client_request payload ≡ ok req
    → (payload ≡ client_request_payload req)
      × IsU64 req.request_id
      × (is_empty req.key ≡ false)
      × (check_value req.opcode req.value ≡ ok tt)
unfolding decode_client_request client_request_payload
client_request_canonical payload k h =
    read_u64-then truncated_payload payload _ k h λ id r₁ p₁ b₁ k₁ h₁.
      read_u8-then truncated_payload r₁ _ k₁ h₁ λ op r₂ p₂ b₂ k₂ h₂.
        refuse_if-then (ltb op 1 || ltb 3 op) (invalid "unknown opcode") _ h₂ λ known h₃.
          read_u32-then truncated_payload r₂ _ k₂ h₃ λ key_len r₃ p₃ b₃ k₃ h₄.
            refuse_if-then (key_len == 0) (invalid "key must not be empty") _ h₄ λ not_zero h₅.
              read_bytes-then truncated_payload key_len r₃ _ k₃ h₅ λ key r₄ p₄ b₄ k₄ h₆.
                read_u32-then truncated_payload r₄ _ k₄ h₆ λ value_len r₅ p₅ b₅ k₅ h₇.
                  read_bytes-then truncated_payload value_len r₅ _ k₅ h₇ λ value left p₆ b₆ k₆ h₈.
                    refuse_if-then (not (at_end left)) (invalid "trailing bytes after payload") _ h₈
                      λ ended h₉.
                        ok_then (check_value (opcode_of_byte op) value) _ h₉ λ _ checked h₁₀. (
                          ground (arith, at_end→nil left, append-nil value),
                          ground arith,
                          ground arith,
                          ground (arith, checked),
                        )

pub client_response_canonical :
    (payload : List ℕ) {resp : ClientResponse}
    → All IsByte payload
    → decode_client_response payload ≡ ok resp
    → (payload ≡ client_response_payload resp) × IsU64 resp.request_id × IsU32 resp.leader_hint
unfolding decode_client_response client_response_payload
client_response_canonical payload k h =
    read_u64-then truncated_payload payload _ k h λ id r₁ p₁ b₁ k₁ h₁.
      read_u16-then truncated_payload r₁ _ k₁ h₁ λ code r₂ p₂ b₂ k₂ h₂.
        refuse_if-then (ltb 4 code) (invalid "unknown response status") _ h₂ λ known h₃.
          read_u32-then truncated_payload r₂ _ k₂ h₃ λ value_len r₃ p₃ b₃ k₃ h₄.
            read_bytes-then truncated_payload value_len r₃ _ k₃ h₄ λ value r₄ p₄ b₄ k₄ h₅.
              read_u32-then truncated_payload r₄ _ k₄ h₅ λ hint left p₅ b₅ k₅ h₆.
                refuse_if-then (not (at_end left)) (invalid "trailing bytes after payload") _ h₆
                  λ ended h₇. (
                    ground (arith, at_end→nil left, append-nil (write_u32_be hint)),
                    ground arith,
                    ground arith,
                  )

pub cluster_request_canonical :
    (payload : List ℕ) {req : ClusterRequest}
    → All IsByte payload
    → decode_cluster_request payload ≡ ok req
    → (payload ≡ cluster_request_payload req) × IsU64 req.request_id
unfolding decode_cluster_request cluster_request_payload
cluster_request_canonical payload k h =
    read_u64-then truncated_payload payload _ k h λ id r₁ p₁ b₁ k₁ h₁.
      read_u8-then truncated_payload r₁ _ k₁ h₁ λ op r₂ p₂ b₂ k₂ h₂.
        refuse_if-then (ltb op 1 || ltb 4 op) (invalid "unknown cluster opcode") _ h₂ λ known h₃.
          read_u32-then truncated_payload r₂ _ k₂ h₃ λ body_len r₃ p₃ b₃ k₃ h₄.
            read_bytes-then truncated_payload body_len r₃ _ k₃ h₄ λ body left p₄ b₄ k₄ h₅.
              refuse_if-then (not (at_end left)) (invalid "trailing bytes after payload") _ h₅
                λ ended h₆. (ground (arith, at_end→nil left, append-nil body), ground arith)

pub cluster_response_canonical :
    (payload : List ℕ) {resp : ClusterResponse}
    → All IsByte payload
    → decode_cluster_response payload ≡ ok resp
    → (payload ≡ cluster_response_payload resp) × IsU64 resp.request_id
unfolding decode_cluster_response cluster_response_payload
cluster_response_canonical payload k h =
    read_u64-then truncated_payload payload _ k h λ id r₁ p₁ b₁ k₁ h₁.
      read_u16-then truncated_payload r₁ _ k₁ h₁ λ code r₂ p₂ b₂ k₂ h₂.
        refuse_if-then (ltb 4 code) (invalid "unknown response status") _ h₂ λ known h₃.
          read_u32-then truncated_payload r₂ _ k₂ h₃ λ body_len r₃ p₃ b₃ k₃ h₄.
            read_bytes-then truncated_payload body_len r₃ _ k₃ h₄ λ body left p₄ b₄ k₄ h₅.
              refuse_if-then (not (at_end left)) (invalid "trailing bytes after payload") _ h₅
                λ ended h₆. (ground (arith, at_end→nil left, append-nil body), ground arith)
