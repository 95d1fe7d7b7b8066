-- ===== src/Tests/Histories.antt =====
-- The checker of histories: a write and a read that follows it.
use neural_kv.Prelude.{
  ℕ, zero, suc, ◌≡◌, ◌≤◌, ◌⊎◌, refl, inl, inr, List, [], ◌∷◌, true, some, arith, get_elem?,
}
use neural_kv.Testing.LinearizabilityChecker.{Kind, LinearizabilityOp, consistent, check, is_ok_set}
use neural_kv.Testing.LinearizabilityChecker.Sound.{
  TakesEffectWithin, TakeEffectApart, ReadsLastWrite, check-consistent,
}

abbrev write : LinearizabilityOp
write = record { client_id = 1; kind = Kind.set; value = 97 ∷ []; ok = true; start = 1; end = 4 }

abbrev read : LinearizabilityOp
read = record { client_id = 2; kind = Kind.get; value = 97 ∷ []; ok = true; start = 2; end = 5 }

abbrev history : List LinearizabilityOp
history = write ∷ read ∷ []

abbrev point : ℕ → ℕ
point zero = 2
point (suc i) = 4

within : TakesEffectWithin history point
within zero op there ok = let same : write ≡ op = ground (arith, there) in ground (arith, same)
within (suc zero) op there ok = let same : read ≡ op = ground (arith, there) in ground (arith, same)
within (suc (suc i)) op there ok = absurd (ground (arith, there))

apart : TakeEffectApart history point
apart zero zero v w v_there w_there v_ok w_ok differ e = differ refl
apart zero (suc j) v w v_there w_there v_ok w_ok differ e = omega (arith, e)
apart (suc i) zero v w v_there w_there v_ok w_ok differ e = omega (arith, e)
apart (suc zero) (suc zero) v w v_there w_there v_ok w_ok differ e = differ refl
apart (suc zero) (suc (suc j)) v w v_there w_there v_ok w_ok differ e = ground (arith, w_there)
apart (suc (suc i)) (suc j) v w v_there w_there v_ok w_ok differ e = ground (arith, v_there)

last_write :
    (k : ℕ) (w : LinearizabilityOp)
    → get_elem? history k ≡ some w
    → is_ok_set w ≡ true
    → (point k ≤ 2) ⊎ (4 ≤ point k)
last_write zero w there is_set = inl (omega arith)
last_write (suc k) w there is_set = inr (omega arith)

reads : ReadsLastWrite history point
reads zero g there is_get =
    let same : write ≡ g = ground (arith, there) in absurd (ground (arith, same, is_get))
reads (suc zero) g there is_get =
    let same : read ≡ g = ground (arith, there) in
    (0, write, refl, refl, ground (arith, same), omega arith, last_write)
reads (suc (suc i)) g there is_get = absurd (ground (arith, there))

check-consistent_example : check history ≡ consistent
check-consistent_example = check-consistent history point within apart reads
