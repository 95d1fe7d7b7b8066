-- ===== src/Storage/ShardedKv/Size.antt =====
-- Size() counts the entries.
use neural_kv.Prelude.{
  ltb, ℕ, zero, suc, ◌+◌, ◌%◌, ◌≡◌, List, none, some, arith, length, if◌then◌else◌, false,
}
use neural_kv.Protocol.{is_empty}
use neural_kv.Storage.Dict.{Dict, length-insert_or_assign, length-erase, insert_or_assign, erase}
use neural_kv.Storage.ShardedKv
use neural_kv.Storage.ShardedKv.{ShardedKv, shard_count, size, sum_sizes, with_shard}
use neural_kv.Storage.ShardedKv.View.{view}

sum_sizes-with_shard :
    (kv : ShardedKv) (i : ℕ) (d : Dict) (n : ℕ)
    → sum_sizes (with_shard kv i d).shards n + (if ltb i n then length (kv.shards i) else 0)
      ≡ sum_sizes kv.shards n + (if ltb i n then length d else 0)
unfolding sum_sizes
sum_sizes-with_shard kv i d zero = ground arith
sum_sizes-with_shard kv i d (suc n) = ground (arith, sum_sizes-with_shard kv i d n)

module _ (hash : List ℕ → ℕ) where
  -- For a key that is not empty, SET adds one to the size if its key was not there, DELETE takes
  -- one off if it was, and otherwise the size stays.
  pub size-set-delete :
      (k v : List ℕ) (kv : ShardedKv)
      → is_empty k ≡ false
      → (size (ShardedKv.set hash k v kv).1
          ≡ size kv + elim (view hash kv k) [ none ↦ 1 | some w ↦ 0 ])
        × (size (ShardedKv.delete hash k kv).1 + elim (view hash kv k) [ none ↦ 0 | some w ↦ 1 ]
            ≡ size kv)
  unfolding size view ShardedKv.set ShardedKv.delete ShardedKv.shard_for
  size-set-delete k v kv there =
      let i = hash k % 256 in
      let d = kv.shards i in
      (
        ground (
          arith,
          sum_sizes-with_shard kv i (insert_or_assign k v d) 256,
          length-insert_or_assign k v d,
        ),
        ground (arith, sum_sizes-with_shard kv i (erase k d) 256, length-erase k d),
      )
