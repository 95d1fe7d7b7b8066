-- ===== src/Storage/Dict.antt =====
-- `std::unordered_map<std::string, std::string>`: the operations that the shards use. The order of the
-- entries is never looked at.
use neural_kv.Prelude.{
  ℕ, ◌+◌, ◌≡◌, refl, List, [], ◌∷◌, Option, none, some, arith, eqb, eqb_iff, if◌then◌else◌, length,
}

abbrev pub Dict : Type 0
Dict = List (List ℕ × List ℕ)

unfoldable pub find : List ℕ → Dict → Option (List ℕ)
find k [] = none
find k ((j, v) ∷ d) = if eqb j k then some v else find k d

unfoldable pub insert_or_assign : List ℕ → List ℕ → Dict → Dict
insert_or_assign k v [] = (k, v) ∷ []
insert_or_assign k v ((j, w) ∷ d) = if eqb j k then (j, v) ∷ d else (j, w) ∷ insert_or_assign k v d

-- erase(it) of the entry that find(k) gave
unfoldable pub erase : List ℕ → Dict → Dict
erase k [] = []
erase k ((j, w) ∷ d) = if eqb j k then d else (j, w) ∷ erase k d

-- No key twice, as in every unordered_map.
abbrev pub IsUnique : Dict → Type 0
IsUnique [] = Unit {0}
IsUnique ((k, v) ∷ d) = (find k d ≡ none) × IsUnique d

pub find-insert_or_assign :
    (k j v : List ℕ) (d : Dict)
    → find j (insert_or_assign k v d) ≡ (if eqb k j then some v else find j d)
unfolding find insert_or_assign
find-insert_or_assign k j v [] = refl
find-insert_or_assign k j v ((i, w) ∷ d) =
    ground (arith, eqb_iff k j, eqb_iff i k, eqb_iff i j, find-insert_or_assign k j v d)

pub insert_or_assign-IsUnique :
    (k v : List ℕ) (d : Dict) → IsUnique d → IsUnique (insert_or_assign k v d)
unfolding find insert_or_assign
insert_or_assign-IsUnique k v [] u = (refl, tt)
insert_or_assign-IsUnique k v ((i, w) ∷ d) u = ground (
  arith,
  eqb_iff i k,
  eqb_iff k i,
  find-insert_or_assign k i v d,
  insert_or_assign-IsUnique k v d u.1,
)

pub find-erase :
    (k j : List ℕ) (d : Dict)
    → IsUnique d
    → find j (erase k d) ≡ (if eqb k j then none else find j d)
unfolding find erase
find-erase k j [] u = ground arith
find-erase k j ((i, w) ∷ d) u =
    ground (arith, eqb_iff k j, eqb_iff i k, eqb_iff i j, find-erase k j d u.1)

pub erase-IsUnique : (k : List ℕ) (d : Dict) → IsUnique d → IsUnique (erase k d)
unfolding find erase
erase-IsUnique k [] u = tt
erase-IsUnique k ((i, w) ∷ d) u =
    ground (arith, eqb_iff i k, eqb_iff k i, find-erase k i d u.1, erase-IsUnique k d u.1)

pub length-insert_or_assign :
    (k v : List ℕ) (d : Dict)
    → length (insert_or_assign k v d) ≡ length d + elim (find k d) [ none ↦ 1 | some w ↦ 0 ]
unfolding find insert_or_assign
length-insert_or_assign k v [] = refl
length-insert_or_assign k v ((i, w) ∷ d) = ground (arith, length-insert_or_assign k v d)

pub length-erase :
    (k : List ℕ) (d : Dict)
    → length (erase k d) + elim (find k d) [ none ↦ 0 | some w ↦ 1 ] ≡ length d
unfolding find erase
length-erase k [] = refl
length-erase k ((i, w) ∷ d) = ground (arith, length-erase k d)
