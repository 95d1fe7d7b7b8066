-- ===== src/Cluster/Config.antt =====
-- cluster/cluster_config.cpp: LoadClusterConfig. A character is its byte; std::isspace, std::isdigit and the
-- stream's operators are those of the "C" locale. The line that an error message ends with is left out.
pub mod Load
pub mod Validity
pub mod Loaded
use neural_kv.Prelude.{
  ℕ, zero, suc, ◌+◌, ◌-◌, ◌*◌, ◌^◌, ◌%◌, List, [], ◌∷◌, ◌++◌, Bool, true, false, not, ◌&&◌, ◌||◌,
  Option, none, some, ltb, leb, ◌==◌, eqb, if◌then◌else◌,
}
use neural_kv.Status.{Status, ErrorCode, okay, error, is_ok}
use neural_kv.Result.{Result, ok, err}
use neural_kv.Protocol.{is_empty, invalid}
use neural_kv.Cluster.{PeerInfo, ClusterConfig}

-- std::isspace: tab to carriage return, and the space. std::isdigit.
abbrev pub is_space : ℕ → Bool
is_space c = (leb 9 c && leb c 13) || (c == 32)

abbrev pub is_digit : ℕ → Bool
is_digit c = leb 48 c && leb c 57

-- The two loops of Trim.
unfoldable pub trim_front : List ℕ → List ℕ
trim_front [] = []
trim_front (c ∷ cs) = let rest = trim_front cs in if is_space c then rest else c ∷ cs

unfoldable pub trim_back : List ℕ → List ℕ
trim_back [] = []
trim_back (c ∷ cs) = let rest = trim_back cs in if is_space c && is_empty rest then [] else c ∷ rest

abbrev pub trim : List ℕ → List ℕ
trim s = trim_back (trim_front s)

-- The longest prefix whose characters pass a test, and what follows it.
unfoldable pub span : (ℕ → Bool) → List ℕ → List ℕ × List ℕ
span test [] = ([], [])
span test (c ∷ cs) =
    let (front, back) = span test cs in if test c then (c ∷ front, back) else ([], c ∷ cs)

-- The number that decimal digits denote.
unfoldable pub decimal : ℕ → List ℕ → ℕ
decimal acc [] = acc
decimal acc (c ∷ cs) = decimal (acc * 10 + (c - 48)) cs

-- `tokens >> number` into a signed integer with the given largest value: white space, a sign, digits. `none`
-- is the failure of the stream: no digit, or a number that does not fit. A negative number that fits is
-- given as 0, since the caller refuses both.
unfoldable pub unsigned_number : ℕ → List ℕ → Option (ℕ × List ℕ)
unfolding span decimal
unsigned_number largest cs =
    let (digits, rest) = span is_digit cs in
    let n = decimal 0 digits in
    if is_empty digits then none else if ltb largest n then none else some (n, rest)

unfoldable pub signed_number : ℕ → List ℕ → Option (ℕ × List ℕ)
unfolding unsigned_number
signed_number largest [] = none
signed_number largest (c ∷ cs) =
    if c == 43
    then unsigned_number largest cs
    else if c == 45
    then elim (unsigned_number (largest + 1) cs) [ none ↦ none | some (n, rest) ↦ some (0, rest) ]
    else unsigned_number largest (c ∷ cs)

abbrev pub read_number : ℕ → List ℕ → Option (ℕ × List ℕ)
read_number largest cs = signed_number largest (trim_front cs)

-- `tokens >> word`
unfoldable pub read_word : List ℕ → Option (List ℕ × List ℕ)
unfolding span
read_word cs =
    let (word, rest) = span (λ c. not (is_space c)) (trim_front cs) in
    if is_empty word then none else some (word, rest)

-- The largest `long` and `int`.
abbrev pub max_long : ℕ
max_long = 2 ^ 63 - 1

abbrev pub max_int : ℕ
max_int = 2 ^ 31 - 1

abbrev pub malformed_peer : Status
malformed_peer = invalid "malformed peer line"

-- The four extractions from `tokens`, with the test that the stream is at its end after them.
unfoldable pub read_peer : List ℕ → Option (ℕ × List ℕ × ℕ)
unfolding read_word signed_number trim_front
read_peer line = elim (read_word line) [
  | none ↦ none
  | some (directive, rest) ↦ elim (read_number max_long rest) [
    | none ↦ none
    | some (id, rest) ↦ elim (read_word rest) [
      | none ↦ none
      | some (host, rest) ↦ elim (read_number max_int rest) [
        | none ↦ none
        | some (port, rest) ↦ if is_empty rest then some (id, host, port) else none
      ]
    ]
  ]
]

unfoldable pub parse_peer : List ℕ → ClusterConfig → Result ClusterConfig
unfolding read_peer
parse_peer line config = elim (read_peer line) [
  | none ↦ err malformed_peer
  | some (id, host, port) ↦
      if id == 0 || ltb 0xFFFFFFFF id || port == 0 || ltb 0xFFFF port
      then err malformed_peer
      else ok (record config {
        peers = config.peers ++ (record { node_id = id; host = host; port = port } ∷ []);
      })
]

-- "peer" at the front, alone or with white space behind it
unfoldable pub starts_peer : List ℕ → Bool
starts_peer (p ∷ e ∷ e' ∷ r ∷ rest) =
    eqb (p ∷ e ∷ e' ∷ r ∷ []) (112 ∷ 101 ∷ 101 ∷ 114 ∷ [])
    && elim rest [ [] ↦ true | c ∷ cs ↦ is_space c ]
starts_peer _ = false

unfoldable pub all_digits : List ℕ → Bool
all_digits [] = true
all_digits (c ∷ cs) = let rest = all_digits cs in is_digit c && rest

-- std::stoul of digits: `none` is the std::out_of_range that it throws.
unfoldable pub stoul : List ℕ → Option ℕ
unfolding decimal
stoul value = if ltb (decimal 0 value) (2 ^ 64) then some (decimal 0 value) else none

abbrev pub node_id_key : List ℕ
node_id_key = 110 ∷ 111 ∷ 100 ∷ 101 ∷ 95 ∷ 105 ∷ 100 ∷ []

abbrev pub leader_id_key : List ℕ
leader_id_key = 108 ∷ 101 ∷ 97 ∷ 100 ∷ 101 ∷ 114 ∷ 95 ∷ 105 ∷ 100 ∷ []

-- The assignment of a parsed value; the cast to uint32_t wraps.
unfoldable pub assign : List ℕ → ℕ → ClusterConfig → Result ClusterConfig
assign key value config =
    if eqb key node_id_key
    then ok (record config { local_node_id = value % 2 ^ 32 })
    else if eqb key leader_id_key
    then ok (record config { leader_node_id = value % 2 ^ 32 })
    else err (invalid "unknown config key")

-- The part of ParseLine behind the peers: `key=value`. `none` is an exception that nobody catches. What is
-- left of the line at `=` begins with that sign, unless there is none.
unfoldable pub assign_text : List ℕ → List ℕ → ClusterConfig → Option (Result ClusterConfig)
unfolding assign stoul
assign_text before [] config = some (err (invalid "unrecognized config line"))
assign_text before (equals ∷ behind) config =
    if is_empty (trim behind) || not (all_digits (trim behind))
    then some (err (invalid "malformed value in line"))
    else elim (stoul (trim behind)) [
      | none ↦ none
      | some parsed ↦ some (assign (trim before) parsed config)
    ]

unfoldable pub parse_assignment : List ℕ → ClusterConfig → Option (Result ClusterConfig)
unfolding assign_text
parse_assignment line config =
    let (before, rest) = span (λ c. not (c == 61)) line in assign_text before rest config

-- The comment sign is 35.
abbrev pub is_comment : List ℕ → Bool
is_comment [] = true
is_comment (c ∷ cs) = c == 35

-- ParseLine
unfoldable pub parse_line : List ℕ → ClusterConfig → Option (Result ClusterConfig)
parse_line raw_line config =
    let line = trim raw_line in
    if is_comment line
    then some (ok config)
    else if starts_peer line
    then some (parse_peer line config)
    else parse_assignment line config
