-- ===== src/Storage/ShardedKv/View.antt =====
-- The sharded map as one map from keys to values, and its operations on it.
use neural_kv.Prelude.{ℕ, ◌≡◌, false, List, Option, none, some, arith, eqb, eqb_iff, if◌then◌else◌}
use neural_kv.Status.{ErrorCode, error}
use neural_kv.Result.{ok, err}
use neural_kv.Protocol.{is_empty}
use neural_kv.Storage.Dict.{
  find, IsUnique, find-insert_or_assign, insert_or_assign-IsUnique, find-erase, erase-IsUnique,
}
use neural_kv.Storage.ShardedKv
use neural_kv.Storage.ShardedKv.{ShardedKv, shard_count, size, sum_sizes}

-- Every shard has each key once.
pub record IsWellFormed (kv : ShardedKv) : Type 0 where
  pub unique : (i : ℕ) → IsUnique (kv.shards i)

pub empty-IsWellFormed : IsWellFormed ShardedKv.empty
empty-IsWellFormed = record { unique = λ i. tt }

module _ (hash : List ℕ → ℕ) where
  unfoldable pub view : ShardedKv → List ℕ → Option (List ℕ)
  view kv key = find key (kv.shards (ShardedKv.shard_for hash key))

  pub set-IsWellFormed :
      (k v : List ℕ) (kv : ShardedKv) → IsWellFormed kv → IsWellFormed (ShardedKv.set hash k v kv).1
  unfolding ShardedKv.set
  set-IsWellFormed k v kv w = record {
    unique = λ i. ground (
      arith,
      w.unique i,
      insert_or_assign-IsUnique k v (kv.shards (ShardedKv.shard_for hash k))
          (w.unique (ShardedKv.shard_for hash k)),
    );
  }

  pub delete-IsWellFormed :
      (k : List ℕ) (kv : ShardedKv) → IsWellFormed kv → IsWellFormed (ShardedKv.delete hash k kv).1
  unfolding ShardedKv.delete
  delete-IsWellFormed k kv w = record {
    unique = λ i. ground (
      arith,
      w.unique i,
      erase-IsUnique k (kv.shards (ShardedKv.shard_for hash k))
          (w.unique (ShardedKv.shard_for hash k)),
    );
  }

  pub view-set :
      (k v j : List ℕ) (kv : ShardedKv)
      → is_empty k ≡ false
      → view (ShardedKv.set hash k v kv).1 j ≡ (if eqb k j then some v else view kv j)
  unfolding view ShardedKv.set
  view-set k v j kv h =
      ground
        (arith, eqb_iff k j, find-insert_or_assign k j v (kv.shards (ShardedKv.shard_for hash k)))

  pub view-delete :
      (k j : List ℕ) (kv : ShardedKv)
      → IsWellFormed kv
      → is_empty k ≡ false
      → view (ShardedKv.delete hash k kv).1 j ≡ (if eqb k j then none else view kv j)
  unfolding view ShardedKv.delete
  view-delete k j kv w h = ground (
    arith,
    eqb_iff k j,
    find-erase k j (kv.shards (ShardedKv.shard_for hash k)) (w.unique (ShardedKv.shard_for hash k)),
  )

  pub get-view :
      (k : List ℕ) (kv : ShardedKv)
      → is_empty k ≡ false
      → ShardedKv.get hash k kv ≡ elim (view kv k) [
        | none ↦ err (error ErrorCode.not_found "key not found")
        | some v ↦ ok v
      ]
  unfolding view ShardedKv.get
  get-view k kv h = ground arith
