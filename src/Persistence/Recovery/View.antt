-- ===== src/Persistence/Recovery/View.antt =====
-- A replay, as a fold over plain maps.
use neural_kv.Prelude.{
  ℕ, suc, ◌+◌, ◌≡◌, refl, false, List, [], ◌∷◌, ◌++◌, none, some, arith, eqb, if◌then◌else◌, foldl,
  length, All,
}
use neural_kv.Protocol.{is_empty}
use neural_kv.Storage.ShardedKv.{ShardedKv}
use neural_kv.Storage.ShardedKv.View.{
  IsWellFormed, view, view-set, view-delete, set-IsWellFormed, delete-IsWellFormed,
}
use neural_kv.Storage.ShardedKv.Refinement.{SpecMap}
use neural_kv.Persistence.WalRecord.{WalRecord, WalOp, IsValidRecord}
use neural_kv.Persistence.WalWriter.Invariant.{Numbered}
use neural_kv.Persistence.Recovery.{apply_op, apply_record}

abbrev pub spec_op : WalOp → List ℕ → List ℕ → SpecMap → SpecMap
spec_op WalOp.set key value m j = if eqb key j then some value else m j
spec_op WalOp.delete key value m j = if eqb key j then none else m j

-- The entries that a log stands for.
unfoldable pub spec_replay : List WalRecord → SpecMap → SpecMap
spec_replay [] m = m
spec_replay (r ∷ rs) m = spec_replay rs (spec_op r.op r.key r.value m)

pub spec_replay-append :
    (rs : List WalRecord) (r : WalRecord) (m : SpecMap)
    → spec_replay (rs ++ (r ∷ [])) m ≡ spec_op r.op r.key r.value (spec_replay rs m)
unfolding spec_replay
spec_replay-append [] r m = refl
spec_replay-append (x ∷ rs) r m = spec_replay-append rs r (spec_op x.op x.key x.value m)

module _ (hash : List ℕ → ℕ) where
  pub apply_op-IsWellFormed :
      (op : WalOp) (k v : List ℕ) (kv : ShardedKv)
      → IsWellFormed kv
      → IsWellFormed (apply_op hash op k v kv)
  unfolding apply_op
  apply_op-IsWellFormed WalOp.set k v kv w = set-IsWellFormed hash k v kv w
  apply_op-IsWellFormed WalOp.delete k v kv w = delete-IsWellFormed hash k kv w

  pub view-apply_op :
      (op : WalOp) (k v : List ℕ) (kv : ShardedKv) (m : SpecMap)
      → IsWellFormed kv
      → is_empty k ≡ false
      → ((j : List ℕ) → view hash kv j ≡ m j)
      → (j : List ℕ) → view hash (apply_op hash op k v kv) j ≡ spec_op op k v m j
  unfolding apply_op
  view-apply_op WalOp.set k v kv m w there r j = ground (arith, view-set hash k v j kv there, r j)
  view-apply_op WalOp.delete k v kv m w there r j =
      ground (arith, view-delete hash k j kv w there, r j)

  pub replay-view :
      (rs : List WalRecord) (kv : ShardedKv) (n : ℕ) (m : SpecMap)
      → All IsValidRecord rs
      → IsWellFormed kv
      → ((j : List ℕ) → view hash kv j ≡ m j)
      → IsWellFormed (foldl (apply_record hash) (kv, n) rs).0
        × ((j : List ℕ) → view hash (foldl (apply_record hash) (kv, n) rs).0 j ≡ spec_replay rs m j)
  unfolding apply_record spec_replay
  replay-view [] kv n m v w r = (w, r)
  replay-view (x ∷ rs) kv n m v w r =
      replay-view rs (apply_op hash x.op x.key x.value kv) x.index (spec_op x.op x.key x.value m)
        v.1 (apply_op-IsWellFormed x.op x.key x.value kv w)
        (view-apply_op x.op x.key x.value kv m w v.0.key_there r)

  pub replay-last :
      (rs : List WalRecord) (kv : ShardedKv) (n : ℕ)
      → Numbered (suc n) rs
      → (foldl (apply_record hash) (kv, n) rs).1 ≡ n + length rs
  unfolding apply_record
  replay-last [] kv n h = omega arith
  replay-last (x ∷ rs) kv n h =
      let ih = replay-last rs (apply_op hash x.op x.key x.value kv) (suc n) h.1 in
      rw h.0 (omega (arith, ih))
