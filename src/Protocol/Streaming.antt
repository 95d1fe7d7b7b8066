-- ===== src/Protocol/Streaming.antt =====
-- The contract of TryParseFrame with the encoders: round trip, canonical form, incremental parsing.
use neural_kv.Prelude.{
  ℕ, ◌≤◌, ◌≡◌, ◌∙◌, refl, sym, List, ◌∷◌, ◌++◌, arith, length, append_assoc, length-append, All,
  take, drop, take-append-drop, length-take, All-take, drop-add, Option, some, none,
}
use neural_kv.Bytes.{IsByte, write_u16_be, write_u32_be, read_u16_be, read_u32_be}
use neural_kv.Bytes.RoundTrip.{read-write_u32, read_u16_be_sum}
use neural_kv.Bytes.Inverse.{write-read_u32}
use neural_kv.Result.{Result, ok, err}
use neural_kv.Protocol.{
  magic, protocol_version, max_payload_size, MessageType, type_byte, Message, need_more, complete,
}
use neural_kv.Protocol.Encode.{
  frame_header, encode_client_request, encode_client_response, encode_cluster_request,
  encode_cluster_response,
}
use neural_kv.Protocol.Frame.{deliver, dispatch, try_parse_frame, message_type}
use neural_kv.Protocol.PayloadLaws.{
  encode_client_request-eq-ok, decode-client_request, decode-client_response,
  decode-cluster_request, decode-cluster_response,
}
use neural_kv.Protocol.Canonical.{
  client_request_canonical, client_response_canonical, cluster_request_canonical,
  cluster_response_canonical,
}
use neural_kv.Protocol.FrameLaws.{
  encode_message, Fits, payload_type, message_payload, encode_message-eq-ok, try_parse_frame-framed,
  length-client_request, length-client_response, length-cluster_request, length-cluster_response,
}

dispatch-payload :
    (m : Message) {frame : List ℕ} (rest : List ℕ)
    → Fits m
    → encode_message m ≡ ok frame
    → dispatch (message_type (type_byte (payload_type m))) (message_payload m) rest
      ≡ (complete m, rest)
unfolding dispatch encode_message encode_client_response encode_cluster_request
    encode_cluster_response
dispatch-payload (Message.client_request req) rest fits h =
    let (key_there, value_fits, size_fits, _) = encode_client_request-eq-ok req h in
    rw (decode-client_request req fits key_there value_fits size_fits)
dispatch-payload (Message.client_response resp) rest fits h =
    rw (decode-client_response resp fits.0 fits.1 (ground arith))
dispatch-payload (Message.cluster_request req) rest fits h =
    rw (decode-cluster_request req fits (ground arith))
dispatch-payload (Message.cluster_response resp) rest fits h =
    rw (decode-cluster_response resp fits (ground arith))

-- A frame that an encoder produced for a message whose numbers fit their types, in front of any
-- further bytes, is parsed to that message, and exactly its bytes are taken from the buffer.
pub try_parse_frame-encode :
    (m : Message) (frame rest : List ℕ)
    → Fits m
    → encode_message m ≡ ok frame
    → try_parse_frame (frame ++ rest) ≡ (complete m, rest)
try_parse_frame-encode m frame rest fits h =
    let (shape, small) = encode_message-eq-ok m h in
    rw (shape, append_assoc)
      (try_parse_frame-framed (payload_type m) (message_payload m) rest small
        ∙ dispatch-payload m rest fits h)

prefix_needs_more :
    (t : MessageType) (payload front : List ℕ) (x : ℕ) (back : List ℕ)
    → length payload ≤ max_payload_size
    → front ++ (x ∷ back) ≡ frame_header t (length payload) ++ payload
    → try_parse_frame front ≡ (need_more, front)
unfolding try_parse_frame frame_header write_u16_be write_u32_be
prefix_needs_more t payload (a ∷ b ∷ c ∷ d ∷ e ∷ f ∷ g ∷ h ∷ more) x back small cut = ground (
  arith,
  read_u16_be_sum a b (c ∷ d ∷ e ∷ f ∷ g ∷ h ∷ more),
  read-write_u32 (length payload) more,
  length-append more (x ∷ back),
)
prefix_needs_more t payload front x back small cut = ground arith

-- A proper prefix of a frame that an encoder produced is left in the buffer, and more bytes are
-- asked for.
pub try_parse_frame_prefix :
    (m : Message) (frame front : List ℕ) (x : ℕ) (back : List ℕ)
    → encode_message m ≡ ok frame
    → frame ≡ front ++ (x ∷ back)
    → try_parse_frame front ≡ (need_more, front)
try_parse_frame_prefix m frame front x back h cut =
    let (shape, small) = encode_message-eq-ok m h in
    prefix_needs_more (payload_type m) (message_payload m) front x back small (sym cut ∙ shape)

deliver-complete {ℓ} :
    {A : Type ℓ} (wrap : A → Message) (left : List ℕ) (r : Result A) {m : Message} {rest : List ℕ}
    → deliver wrap left r ≡ (complete m, rest)
    → (a : A) × (r ≡ ok a) × (m ≡ wrap a) × (rest ≡ left)
deliver-complete wrap left (ok a) h = (a, refl, ground arith, ground arith)
deliver-complete wrap left (err s) h = absurd (ground arith)

-- Each decoder's payload, put back behind its header, is what the encoder returns.
dispatch_canonical :
    (t : Option MessageType) (payload left : List ℕ) {m : Message} {rest : List ℕ}
    → All IsByte payload
    → length payload ≤ max_payload_size
    → dispatch t payload left ≡ (complete m, rest)
    → (t ≡ some (payload_type m))
      × (encode_message m ≡ ok (frame_header (payload_type m) (length payload) ++ payload))
      × (rest ≡ left)
unfolding dispatch encode_message encode_client_request encode_client_response
    encode_cluster_request encode_cluster_response
dispatch_canonical none payload left k small h = absurd (ground arith)
dispatch_canonical (some MessageType.client_request) payload left k small h =
    let (req, e, em, er) = deliver-complete Message.client_request left _ h in
    let (shape, _, key, value) = client_request_canonical payload k e in
    rw em (refl, ground (arith, shape, key, value, length-client_request req), er)
dispatch_canonical (some MessageType.client_response) payload left k small h =
    let (resp, e, em, er) = deliver-complete Message.client_response left _ h in
    let (shape, _, _) = client_response_canonical payload k e in
    rw em (refl, ground (arith, shape, length-client_response resp), er)
dispatch_canonical (some MessageType.cluster_request) payload left k small h =
    let (req, e, em, er) = deliver-complete Message.cluster_request left _ h in
    let (shape, _) = cluster_request_canonical payload k e in
    rw em (refl, ground (arith, shape, length-cluster_request req), er)
dispatch_canonical (some MessageType.cluster_response) payload left k small h =
    let (resp, e, em, er) = deliver-complete Message.cluster_response left _ h in
    let (shape, _) = cluster_response_canonical payload k e in
    rw em (refl, ground (arith, shape, length-cluster_response resp), er)

type_byte-message_type : (b : ℕ) (t : MessageType) → message_type b ≡ some t → b ≡ type_byte t
type_byte-message_type b MessageType.client_request h = ground arith
type_byte-message_type b MessageType.client_response h = ground arith
type_byte-message_type b MessageType.cluster_request h = ground arith
type_byte-message_type b MessageType.cluster_response h = ground arith

-- The guards that a complete parse has passed, for a buffer of a header and `more`.
complete_guards :
    (a b c d e f g i : ℕ) (more : List ℕ) {m : Message} {rest : List ℕ}
    → try_parse_frame (a ∷ b ∷ c ∷ d ∷ e ∷ f ∷ g ∷ i ∷ more) ≡ (complete m, rest)
    → let n = read_u32_be (e ∷ f ∷ g ∷ i ∷ more) in
      (read_u16_be (a ∷ b ∷ c ∷ d ∷ e ∷ f ∷ g ∷ i ∷ more) ≡ magic)
      × (c ≡ protocol_version)
      × (n ≤ max_payload_size)
      × (n ≤ length more)
      × (dispatch (message_type d) (take n more) (drop n more) ≡ (complete m, rest))
unfolding try_parse_frame
complete_guards a b c d e f g i more h =
    let buffer : List ℕ = a ∷ b ∷ c ∷ d ∷ e ∷ f ∷ g ∷ i ∷ more in
    let n = read_u32_be (e ∷ f ∷ g ∷ i ∷ more) in
    let whole = drop-add 8 n buffer in
    (ground arith, ground arith, ground arith, ground arith, ground (arith, whole))

-- A buffer of bytes from which a message is parsed begins with the frame that the encoder returns
-- for that message, and the rest of the buffer is left.
pub try_parse_frame_canonical :
    (buffer : List ℕ) (m : Message) (rest : List ℕ)
    → All IsByte buffer
    → try_parse_frame buffer ≡ (complete m, rest)
    → (frame : List ℕ) × (encode_message m ≡ ok frame) × (buffer ≡ frame ++ rest)
unfolding frame_header write_u16_be
try_parse_frame_canonical (a ∷ b ∷ c ∷ d ∷ e ∷ f ∷ g ∷ i ∷ more) m rest k h =
    let n = read_u32_be (e ∷ f ∷ g ∷ i ∷ more) in
    let (is_magic, version, small, there, parsed) = complete_guards a b c d e f g i more h in
    let (t, enc, left) =
      dispatch_canonical (message_type d) (take n more) (drop n more)
        (All-take IsByte n more k.1.1.1.1.1.1.1.1) (ground (arith, length-take n more)) parsed in
    (
      frame_header (payload_type m) (length (take n more)) ++ take n more,
      enc,
      ground (
        arith,
        read_u16_be_sum a b (c ∷ d ∷ e ∷ f ∷ g ∷ i ∷ more),
        type_byte-message_type d (payload_type m) t,
        write-read_u32 e f g i more (omega arith),
        length-take n more,
        take-append-drop n more,
        left,
      ),
    )
try_parse_frame_canonical _ m rest k h = absurd (unfold try_parse_frame in ground arith)
