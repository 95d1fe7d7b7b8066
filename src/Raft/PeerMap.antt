-- ===== src/Raft/PeerMap.antt =====
-- `std::unordered_map<uint32_t, T>` of raft/node.h: from a peer's id to an index or a time. The order of
-- the entries is never looked at.
use neural_kv.Prelude.{ℕ, ◌≡◌, List, [], ◌∷◌, Option, none, some, ◌==◌, if◌then◌else◌, arith}

abbrev pub PeerMap : Type 0
PeerMap = List (ℕ × ℕ)

unfoldable pub find : ℕ → PeerMap → Option ℕ
find id [] = none
find id ((j, v) ∷ m) = let rest = find id m in if j == id then some v else rest

-- m[id] = v
unfoldable pub assign : ℕ → ℕ → PeerMap → PeerMap
assign id v [] = (id, v) ∷ []
assign id v ((j, w) ∷ m) = let rest = assign id v m in if j == id then (j, v) ∷ m else (j, w) ∷ rest

-- m[id] as a value, and the map with the zero that operator[] puts in for a missing key.
unfoldable pub at_or_zero : ℕ → PeerMap → ℕ × PeerMap
at_or_zero id m = elim (find id m) [ none ↦ (0, assign id 0 m) | some v ↦ (v, m) ]

pub find-assign :
    (i j v : ℕ) (m : PeerMap) → find j (assign i v m) ≡ (if i == j then some v else find j m)
unfolding find assign
find-assign i j v [] = ground arith
find-assign i j v ((k, w) ∷ m) = ground (arith, find-assign i j v m)
