-- ===== src/Raft/Node/MajorityIndex.antt =====
-- The number that AdvanceCommitIndexLocked picks is the highest that more than half of the logs have
-- reached.
use neural_kv.Prelude.{
  ℕ, zero, suc, ◌+◌, ◌-◌, ◌*◌, ◌/◌, ◌≤◌, ◌<◌, ◌≡◌, inl, inr, refl, List, map, [], ◌∷◌, some, arith,
  length, get_elem?, All, leb, if◌then◌else◌, Bool-cases,
}
use neural_kv.Raft.Log.{last_index}
use neural_kv.Raft.Node.{RaftNode}
use neural_kv.Raft.Node.Leader.{insert, sort, indices, majority_index}

-- How many of the logs have reached index `m`.
unfoldable count_reached : ℕ → List ℕ → ℕ
count_reached m [] = 0
count_reached m (x ∷ xs) = let rest = count_reached m xs in if leb m x then 1 + rest else rest

abbrev IsSorted : List ℕ → Type 0
IsSorted [] = Unit {0}
IsSorted (x ∷ xs) = All (λ y. x ≤ y) xs × IsSorted xs

count-insert : (m x : ℕ) (ys : List ℕ) → count_reached m (insert x ys) ≡ count_reached m (x ∷ ys)
unfolding insert count_reached
count-insert m x [] = refl
count-insert m x (y ∷ ys) = ground (arith, count-insert m x ys)

count-sort : (m : ℕ) (xs : List ℕ) → count_reached m (sort xs) ≡ count_reached m xs
unfolding sort count_reached
count-sort m [] = refl
count-sort m (x ∷ xs) = ground (arith, count-insert m x (sort xs), count-sort m xs)

length-insert : (x : ℕ) (ys : List ℕ) → length (insert x ys) ≡ suc (length ys)
unfolding insert
length-insert x [] = refl
length-insert x (y ∷ ys) = ground (arith, length-insert x ys)

length-sort : (xs : List ℕ) → length (sort xs) ≡ length xs
unfolding sort
length-sort [] = refl
length-sort (x ∷ xs) = ground (arith, length-insert x (sort xs), length-sort xs)

lower : (a b : ℕ) (ys : List ℕ) → a ≤ b → All (λ y. b ≤ y) ys → All (λ y. a ≤ y) ys
lower a b [] h all = tt
lower a b (y ∷ ys) h all = (omega (arith, all.0), lower a b ys h all.1)

insert-All : (a x : ℕ) (ys : List ℕ) → a ≤ x → All (λ y. a ≤ y) ys → All (λ y. a ≤ y) (insert x ys)
unfolding insert
insert-All a x [] h all = (h, tt)
insert-All a x (y ∷ ys) h all = elim (Bool-cases (leb x y)) [
  | inl low ↦ rw low (h, all)
  | inr high ↦ rw high (all.0, insert-All a x ys h all.1)
]

insert-IsSorted : (x : ℕ) (ys : List ℕ) → IsSorted ys → IsSorted (insert x ys)
unfolding insert
insert-IsSorted x [] s = (tt, tt)
insert-IsSorted x (y ∷ ys) s = elim (Bool-cases (leb x y)) [
  | inl low ↦ rw low ((ground (arith, low), lower x y ys (ground (arith, low)) s.0), s)
  | inr high ↦ rw high (insert-All y x ys (ground (arith, high)) s.0, insert-IsSorted x ys s.1)
]

sort-IsSorted : (xs : List ℕ) → IsSorted (sort xs)
unfolding sort
sort-IsSorted [] = tt
sort-IsSorted (x ∷ xs) = insert-IsSorted x (sort xs) (sort-IsSorted xs)

count-All : (m : ℕ) (ys : List ℕ) → All (λ y. m ≤ y) ys → count_reached m ys ≡ length ys
unfolding count_reached
count-All m [] all = refl
count-All m (y ∷ ys) all = ground (arith, all.0, count-All m ys all.1)

sorted-count :
    (k m : ℕ) (ys : List ℕ)
    → IsSorted ys
    → get_elem? ys k ≡ some m
    → length ys ≤ k + count_reached m ys
unfolding count_reached
sorted-count k m [] s h = omega arith
sorted-count zero m (y ∷ ys) s h =
    let e : y ≡ m = ground (arith, h) in ground (arith, e, count-All y ys s.0)
sorted-count (suc k) m (y ∷ ys) s h = ground (arith, sorted-count k m ys s.1 h)

not_empty : (all : List ℕ) (k m : ℕ) → get_elem? (sort all) k ≡ some m → 1 ≤ length all
unfolding sort
not_empty [] k m h = absurd (ground (arith, h))
not_empty (x ∷ xs) k m h = omega arith

-- How many of the peers of `match_index_` have taken the entries up to index `m`.
abbrev acked : ℕ → List (ℕ × ℕ) → ℕ
acked m [] = 0
acked m (peer ∷ peers) = let rest = acked m peers in if leb m peer.1 then suc rest else rest

-- The node, if its log goes that far, and the peers that have taken it.
abbrev holders : RaftNode → ℕ → ℕ
holders n m = (if leb m (last_index n.entries) then 1 else 0) + acked m n.match_index

-- More than half of the node and the peers of `match_index_` hold the log up to there, but no more than
-- half up to any higher index.
abbrev pub Highest : RaftNode → ℕ → Type 0
Highest n m =
    (1 + length n.match_index < 2 * holders n m)
    × ((higher : ℕ) → m < higher → 2 * holders n higher ≤ 1 + length n.match_index)

count_le : (m : ℕ) (ys : List ℕ) → count_reached m ys ≤ length ys
unfolding count_reached
count_le m [] = omega arith
count_le m (y ∷ ys) = ground (arith, count_le m ys)

get_elem?-All : (a k m : ℕ) (ys : List ℕ) → All (λ y. a ≤ y) ys → get_elem? ys k ≡ some m → a ≤ m
get_elem?-All a k m [] all h = absurd (ground (arith, h))
get_elem?-All a zero m (y ∷ ys) all h = let e : y ≡ m = ground (arith, h) in omega (arith, e, all.0)
get_elem?-All a (suc k) m (y ∷ ys) all h = get_elem?-All a k m ys all.1 h

get_elem?-within : (k : ℕ) (ys : List ℕ) → k < length ys → (m : ℕ) × (get_elem? ys k ≡ some m)
get_elem?-within k [] short = absurd (omega (arith, short))
get_elem?-within zero (y ∷ ys) short = (y, refl)
get_elem?-within (suc k) (y ∷ ys) short = get_elem?-within k ys (omega (arith, short))

sorted-above :
    (k m higher : ℕ) (ys : List ℕ)
    → IsSorted ys
    → get_elem? ys k ≡ some m
    → m < higher
    → count_reached higher ys + k < length ys
unfolding count_reached
sorted-above k m higher [] s h above = absurd (ground (arith, h))
sorted-above zero m higher (y ∷ ys) s h above =
    let e : y ≡ m = ground (arith, h) in ground (arith, e, above, count_le higher ys)
sorted-above (suc k) m higher (y ∷ ys) s h above =
    let low = get_elem?-All y k m ys s.0 h in
    ground (arith, low, above, sorted-above k m higher ys s.1 h above)

count_reached-map :
    (m : ℕ) (peers : List (ℕ × ℕ)) → count_reached m (map (λ entry. entry.1) peers) ≡ acked m peers
unfolding count_reached
count_reached-map m [] = refl
count_reached-map m (peer ∷ peers) = ground (arith, count_reached-map m peers)

length-matches : (peers : List (ℕ × ℕ)) → length (map (λ entry. entry.1) peers) ≡ length peers
length-matches [] = refl
length-matches (peer ∷ peers) = ground (arith, length-matches peers)

length-indices : (n : RaftNode) → length (indices n) ≡ 1 + length n.match_index
unfolding indices
length-indices n = ground (arith, length-matches n.match_index)

count_reached-indices : (n : RaftNode) (m : ℕ) → count_reached m (indices n) ≡ holders n m
unfolding indices count_reached
count_reached-indices n m = ground (arith, count_reached-map m n.match_index)

majority_index-count :
    (all : List ℕ) (m : ℕ) → majority_index all ≡ some m → length all / 2 + 1 ≤ count_reached m all
unfolding majority_index
majority_index-count all m h =
    let k = length all - (length all / 2 + 1) in
    let reached = sorted-count k m (sort all) (sort-IsSorted all) h in
    omega (arith, reached, length-sort all, count-sort m all, not_empty all k m h)

majority_index-above :
    (all : List ℕ) (m higher : ℕ)
    → majority_index all ≡ some m
    → m < higher
    → count_reached higher all ≤ length all / 2
unfolding majority_index
majority_index-above all m higher h above =
    let k = length all - (length all / 2 + 1) in
    let over = sorted-above k m higher (sort all) (sort-IsSorted all) h above in
    omega (arith, over, length-sort all, count-sort higher all, not_empty all k m h)

-- There is a highest index that more than half hold, and it is the one that is picked.
pub majority_index-Highest :
    (n : RaftNode) → (m : ℕ) × (majority_index (indices n) ≡ some m) × Highest n m
unfolding majority_index
majority_index-Highest n =
    let all = indices n in
    let size = length-indices n in
    let (m, there) =
      get_elem?-within (length all - (length all / 2 + 1)) (sort all)
        (omega (arith, size, length-sort all)) in
    (
      m,
      there,
      (
        omega (arith, size, count_reached-indices n m, majority_index-count all m there),
        λ higher above. omega (
          arith,
          size,
          count_reached-indices n higher,
          majority_index-above all m higher there above,
        ),
      ),
    )
