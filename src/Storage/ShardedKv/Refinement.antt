-- ===== src/Storage/ShardedKv/Refinement.antt =====
-- What a client of the sharded map can tell: the replies are those of one plain map.
use neural_kv.Prelude.{
  ℕ, true, ◌≡◌, refl, List, [], ◌∷◌, Option, none, some, arith, eqb, if◌then◌else◌, Bool-cases, inl,
  inr,
}
use neural_kv.Status.{Status, ErrorCode, okay, error}
use neural_kv.Result.{Result, ok, err}
use neural_kv.Protocol.{is_empty, invalid}
use neural_kv.Storage.ShardedKv
use neural_kv.Storage.ShardedKv.{ShardedKv}
use neural_kv.Storage.ShardedKv.View.{
  IsWellFormed, view, view-set, view-delete, set-IsWellFormed, delete-IsWellFormed,
}

pub data Call : Type 0 where
  set : List ℕ → List ℕ → Call
  get delete : List ℕ → Call

pub data Reply : Type 0 where
  done : Status → Reply
  found : Result (List ℕ) → Reply

-- The specification: a function from keys to values.
abbrev pub SpecMap : Type 0
SpecMap = List ℕ → Option (List ℕ)

abbrev pub spec_call : Call → SpecMap → Reply × SpecMap
spec_call (set k v) m =
    if is_empty k
    then (done (invalid "key must not be empty"), m)
    else (done okay, λ j. if eqb k j then some v else m j)
spec_call (get k) m = if is_empty k then (found (err (invalid "key must not be empty")), m) else (
  found (elim (m k) [ none ↦ err (error ErrorCode.not_found "key not found") | some v ↦ ok v ]),
  m,
)
spec_call (delete k) m = if is_empty k then (done (invalid "key must not be empty"), m) else (
  done (elim (m k) [ none ↦ error ErrorCode.not_found "key not found" | some v ↦ okay ]),
  λ j. if eqb k j then none else m j,
)

unfoldable pub spec_run : List Call → SpecMap → List Reply
spec_run [] m = []
spec_run (c ∷ cs) m = (spec_call c m).0 ∷ spec_run cs (spec_call c m).1

module _ (hash : List ℕ → ℕ) where
  abbrev pub kv_call : Call → ShardedKv → Reply × ShardedKv
  kv_call (set k v) kv = (done (ShardedKv.set hash k v kv).0, (ShardedKv.set hash k v kv).1)
  kv_call (get k) kv = (found (ShardedKv.get hash k kv), kv)
  kv_call (delete k) kv = (done (ShardedKv.delete hash k kv).0, (ShardedKv.delete hash k kv).1)

  unfoldable pub kv_run : List Call → ShardedKv → List Reply
  kv_run [] kv = []
  kv_run (c ∷ cs) kv = (kv_call c kv).0 ∷ kv_run cs (kv_call c kv).1

  abbrev Refines : ShardedKv → SpecMap → Type 0
  Refines kv m = (j : List ℕ) → view hash kv j ≡ m j

  call_reply :
      (c : Call) (kv : ShardedKv) (m : SpecMap)
      → Refines kv m
      → (kv_call c kv).0 ≡ (spec_call c m).0
  unfolding view ShardedKv.set ShardedKv.get ShardedKv.delete
  call_reply (set k v) kv m r = ground arith
  call_reply (get k) kv m r = ground (arith, r k)
  call_reply (delete k) kv m r = ground (arith, r k)

  empty_key_keeps :
      (k v : List ℕ) (kv : ShardedKv)
      → is_empty k ≡ true
      → ((ShardedKv.set hash k v kv).1 ≡ kv) × ((ShardedKv.delete hash k kv).1 ≡ kv)
  unfolding ShardedKv.set ShardedKv.delete
  empty_key_keeps k v kv h = (ground arith, ground arith)

  kv_call-Refines :
      (c : Call) (kv : ShardedKv) (m : SpecMap)
      → IsWellFormed kv
      → Refines kv m
      → Refines (kv_call c kv).1 (spec_call c m).1
  kv_call-Refines (set k v) kv m w r j = elim (Bool-cases (is_empty k)) [
    | inl missing ↦ ground (arith, empty_key_keeps k v kv missing, r j)
    | inr there ↦ ground (arith, view-set hash k v j kv there, r j)
  ]
  kv_call-Refines (get k) kv m w r j = ground (arith, r j)
  kv_call-Refines (delete k) kv m w r j = elim (Bool-cases (is_empty k)) [
    | inl missing ↦ ground (arith, empty_key_keeps k [] kv missing, r j)
    | inr there ↦ ground (arith, view-delete hash k j kv w there, r j)
  ]

  call-IsWellFormed : (c : Call) (kv : ShardedKv) → IsWellFormed kv → IsWellFormed (kv_call c kv).1
  call-IsWellFormed (set k v) kv w = set-IsWellFormed hash k v kv w
  call-IsWellFormed (get k) kv w = w
  call-IsWellFormed (delete k) kv w = delete-IsWellFormed hash k kv w

  -- Whatever the hash function: from a well-formed store that shows the entries of the plain map
  -- `m`, any sequence of calls gets the replies, errors included, that the plain map gives.
  pub kv_run-spec_run :
      (cs : List Call) (kv : ShardedKv) (m : SpecMap)
      → IsWellFormed kv
      → ((j : List ℕ) → view hash kv j ≡ m j)
      → kv_run cs kv ≡ spec_run cs m
  unfolding kv_run spec_run
  kv_run-spec_run [] kv m w r = refl
  kv_run-spec_run (c ∷ cs) kv m w r = cc (
    call_reply c kv m r,
    kv_run-spec_run cs (kv_call c kv).1 (spec_call c m).1 (call-IsWellFormed c kv w)
        (kv_call-Refines c kv m w r),
  )
