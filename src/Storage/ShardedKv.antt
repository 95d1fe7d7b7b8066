-- ===== src/Storage/ShardedKv.antt =====
-- storage/sharded_kv.h and .cpp. `std::hash<std::string_view>` is the argument `hash`, of which nothing
-- is assumed. The locks of the shards make each operation on a shard one step; the model has the step.
pub mod View
pub mod Refinement
pub mod Size
use neural_kv.Prelude.{
  ℕ, zero, suc, ◌+◌, ◌%◌, List, [], ◌∷◌, Option, none, some, ◌==◌, if◌then◌else◌, length,
}
use neural_kv.Status.{Status, ErrorCode, okay, error}
use neural_kv.Result.{Result, ok, err}
use neural_kv.Protocol.{is_empty, invalid}
use neural_kv.Storage.Dict.{Dict, find, insert_or_assign, erase}

-- kShardCount
abbrev pub shard_count : ℕ
shard_count = 256

-- The array of shards, by index.
pub record ShardedKv : Type 0 where
  pub shards : ℕ → Dict

abbrev pub empty : ShardedKv
empty = record { shards = λ i. [] }

abbrev pub with_shard : ShardedKv → ℕ → Dict → ShardedKv
with_shard kv i d = record { shards = λ j. if j == i then d else kv.shards j }

unfoldable pub sum_sizes : (ℕ → Dict) → ℕ → ℕ
sum_sizes shards zero = 0
sum_sizes shards (suc n) = sum_sizes shards n + length (shards n)

-- Size()
unfoldable pub size : ShardedKv → ℕ
size kv = sum_sizes kv.shards shard_count

module _ (hash : List ℕ → ℕ) where
  -- ShardFor
  unfoldable pub shard_for : List ℕ → ℕ
  shard_for key = hash key % shard_count

  unfoldable pub set : List ℕ → List ℕ → ShardedKv → Status × ShardedKv
  set key value kv =
      let i = shard_for key in
      if is_empty key
      then (invalid "key must not be empty", kv)
      else (okay, with_shard kv i (insert_or_assign key value (kv.shards i)))

  unfoldable pub get : List ℕ → ShardedKv → Result (List ℕ)
  get key kv =
      if is_empty key
      then err (invalid "key must not be empty")
      else elim (find key (kv.shards (shard_for key))) [
        | none ↦ err (error ErrorCode.not_found "key not found")
        | some v ↦ ok v
      ]

  unfoldable pub delete : List ℕ → ShardedKv → Status × ShardedKv
  delete key kv =
      let i = shard_for key in
      if is_empty key
      then (invalid "key must not be empty", kv)
      else elim (find key (kv.shards i)) [
        | none ↦ (error ErrorCode.not_found "key not found", kv)
        | some v ↦ (okay, with_shard kv i (erase key (kv.shards i)))
      ]
