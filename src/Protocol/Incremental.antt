-- ===== src/Protocol/Incremental.antt =====
-- TryParseFrame when more bytes arrive behind those that it has seen, whatever they are.
use neural_kv.Prelude.{
  ℕ, ◌<◌, ◌≡◌, ◌≢◌, refl, List, [], ◌∷◌, ◌++◌, Option, none, some, arith, length, take, drop,
  length-append, length-drop, drop-add, take-append_le, drop-append_le, ltb, not, ◌==◌,
  if◌then◌else◌,
}
use neural_kv.Bytes.{read_u16_be, read_u32_be}
use neural_kv.Result.{Result, ok, err}
use neural_kv.Protocol.{
  MessageType, Message, need_more, complete, malformed, magic, protocol_version, max_payload_size,
}
use neural_kv.Protocol.Frame.{deliver, dispatch, try_parse_frame, message_type}

deliver_left {ℓ} :
    {A : Type ℓ} (wrap : A → Message) (left more : List ℕ) (r : Result A)
    → (deliver wrap (left ++ more) r).0 ≡ (deliver wrap left r).0
deliver_left wrap left more (ok a) = refl
deliver_left wrap left more (err s) = refl

-- What the switch makes of a payload does not depend on the bytes behind it.
dispatch_result :
    (t : Option MessageType) (payload left more : List ℕ)
    → (dispatch t payload (left ++ more)).0 ≡ (dispatch t payload left).0
unfolding dispatch
dispatch_result none payload left more = refl
dispatch_result (some MessageType.client_request) payload left more = deliver_left _ left more _
dispatch_result (some MessageType.client_response) payload left more = deliver_left _ left more _
dispatch_result (some MessageType.cluster_request) payload left more = deliver_left _ left more _
dispatch_result (some MessageType.cluster_response) payload left more = deliver_left _ left more _

deliver-left {ℓ} :
    {A : Type ℓ} (wrap : A → Message) (left : List ℕ) (r : Result A) (m : Message)
    → (deliver wrap left r).0 ≡ complete m
    → (deliver wrap left r).1 ≡ left
deliver-left wrap left (ok a) m h = refl
deliver-left wrap left (err s) m h = absurd (ground arith)

dispatch-left :
    (t : Option MessageType) (payload left : List ℕ) (m : Message)
    → (dispatch t payload left).0 ≡ complete m
    → (dispatch t payload left).1 ≡ left
unfolding dispatch
dispatch-left none payload left m h = absurd (ground arith)
dispatch-left (some MessageType.client_request) payload left m h = deliver-left _ left _ m h
dispatch-left (some MessageType.client_response) payload left m h = deliver-left _ left _ m h
dispatch-left (some MessageType.cluster_request) payload left m h = deliver-left _ left _ m h
dispatch-left (some MessageType.cluster_response) payload left m h = deliver-left _ left _ m h

deliver_decides {ℓ} :
    {A : Type ℓ} (wrap : A → Message) (left : List ℕ) (r : Result A)
    → (deliver wrap left r).0 ≢ need_more
deliver_decides wrap left (ok a) h = ground arith
deliver_decides wrap left (err s) h = ground arith

dispatch_decides :
    (t : Option MessageType) (payload left : List ℕ) → (dispatch t payload left).0 ≢ need_more
unfolding dispatch
dispatch_decides none payload left h = ground arith
dispatch_decides (some MessageType.client_request) payload left h = deliver_decides _ left _ h
dispatch_decides (some MessageType.client_response) payload left h = deliver_decides _ left _ h
dispatch_decides (some MessageType.cluster_request) payload left h = deliver_decides _ left _ h
dispatch_decides (some MessageType.cluster_response) payload left h = deliver_decides _ left _ h

-- The parse of a buffer that has its header.
parse_headed :
    (a b c d e f g i : ℕ) (more : List ℕ)
    → let n = read_u32_be (e ∷ f ∷ g ∷ i ∷ more) in
      let buffer : List ℕ = a ∷ b ∷ c ∷ d ∷ e ∷ f ∷ g ∷ i ∷ more in
      try_parse_frame buffer ≡ (
        if not (read_u16_be buffer == magic)
        then (malformed, [])
        else if not (c == protocol_version)
        then (malformed, [])
        else if ltb max_payload_size n
        then (malformed, [])
        else if ltb (length more) n
        then (need_more, buffer)
        else dispatch (message_type d) (take n more) (drop n more))
unfolding try_parse_frame
parse_headed a b c d e f g i more =
    ground (
      arith,
      drop-add 8 (read_u32_be (e ∷ f ∷ g ∷ i ∷ more)) (a ∷ b ∷ c ∷ d ∷ e ∷ f ∷ g ∷ i ∷ more),
    )

read_u32_be_front :
    (e f g i : ℕ) (xs ys : List ℕ)
    → read_u32_be (e ∷ f ∷ g ∷ i ∷ xs) ≡ read_u32_be (e ∷ f ∷ g ∷ i ∷ ys)
unfolding read_u32_be
read_u32_be_front e f g i xs ys = refl

read_u16_be_front : (a b : ℕ) (xs ys : List ℕ) → read_u16_be (a ∷ b ∷ xs) ≡ read_u16_be (a ∷ b ∷ ys)
unfolding read_u16_be
read_u16_be_front a b xs ys = refl

headed_more :
    (a b c d e f g i : ℕ) (tail more : List ℕ) (m : Message) (rest : List ℕ)
    → try_parse_frame (a ∷ b ∷ c ∷ d ∷ e ∷ f ∷ g ∷ i ∷ tail) ≡ (complete m, rest)
    → (try_parse_frame (a ∷ b ∷ c ∷ d ∷ e ∷ f ∷ g ∷ i ∷ (tail ++ more))
        ≡ (complete m, rest ++ more))
      × (length rest < length {A = ℕ} (a ∷ b ∷ c ∷ d ∷ e ∷ f ∷ g ∷ i ∷ tail))
headed_more a b c d e f g i tail more m rest h =
    let n = read_u32_be (e ∷ f ∷ g ∷ i ∷ tail) in
    ground (
      arith,
      parse_headed a b c d e f g i tail,
      parse_headed a b c d e f g i (tail ++ more),
      read_u32_be_front e f g i (tail ++ more) tail,
      read_u16_be_front a b (c ∷ d ∷ e ∷ f ∷ g ∷ i ∷ (tail ++ more)) (c ∷ d ∷ e ∷ f ∷ g ∷ i ∷ tail),
      length-append tail more,
      take-append_le n tail more,
      drop-append_le n tail more,
      dispatch_result (message_type d) (take n tail) (drop n tail) more,
      dispatch-left (message_type d) (take n tail) (drop n tail) m,
      dispatch-left (message_type d) (take n tail) (drop n tail ++ more) m,
      length-drop n tail,
    )

-- A message that is parsed is parsed the same when more bytes follow, which are left behind the rest.
pub try_parse_frame_more :
    (buffer more : List ℕ) (m : Message) (rest : List ℕ)
    → try_parse_frame buffer ≡ (complete m, rest)
    → (try_parse_frame (buffer ++ more) ≡ (complete m, rest ++ more))
      × (length rest < length buffer)
try_parse_frame_more (a ∷ b ∷ c ∷ d ∷ e ∷ f ∷ g ∷ i ∷ tail) more m rest h =
    headed_more a b c d e f g i tail more m rest h
try_parse_frame_more _ more m rest h = absurd (unfold try_parse_frame in ground arith)

-- A buffer that is refused is refused whatever follows.
pub try_parse_frame_refused :
    (buffer more : List ℕ)
    → (try_parse_frame buffer).0 ≡ malformed
    → (try_parse_frame (buffer ++ more)).0 ≡ malformed
try_parse_frame_refused (a ∷ b ∷ c ∷ d ∷ e ∷ f ∷ g ∷ i ∷ tail) more h =
    let n = read_u32_be (e ∷ f ∷ g ∷ i ∷ tail) in
    ground (
      arith,
      parse_headed a b c d e f g i tail,
      parse_headed a b c d e f g i (tail ++ more),
      read_u32_be_front e f g i (tail ++ more) tail,
      read_u16_be_front a b (c ∷ d ∷ e ∷ f ∷ g ∷ i ∷ (tail ++ more)) (c ∷ d ∷ e ∷ f ∷ g ∷ i ∷ tail),
      length-append tail more,
      take-append_le n tail more,
      drop-append_le n tail more,
      dispatch_result (message_type d) (take n tail) (drop n tail) more,
    )
try_parse_frame_refused _ more h = absurd (unfold try_parse_frame in ground arith)

-- A buffer that asks for more is left as it is.
pub try_parse_frame_waits :
    (buffer : List ℕ) → (try_parse_frame buffer).0 ≡ need_more → (try_parse_frame buffer).1 ≡ buffer
try_parse_frame_waits (a ∷ b ∷ c ∷ d ∷ e ∷ f ∷ g ∷ i ∷ tail) h =
    let n = read_u32_be (e ∷ f ∷ g ∷ i ∷ tail) in
    ground (
      arith,
      parse_headed a b c d e f g i tail,
      dispatch_decides (message_type d) (take n tail) (drop n tail),
    )
try_parse_frame_waits _ h = unfold try_parse_frame in ground arith
