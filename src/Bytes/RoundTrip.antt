-- ===== src/Bytes/RoundTrip.antt =====
-- What the readers make of the bytes that the writers produced.
use neural_kv.Prelude.{
  ℕ, ◌+◌, ◌*◌, ◌%◌, ◌^◌, ◌<◌, ◌≡◌, ◌∙◌, bit_or, List, [], ◌∷◌, ◌++◌, arith, All,
}
use neural_kv.Prelude.Bits.{bit_or_shifted}
use neural_kv.Bytes.{
  IsU16, IsU32, IsU64, IsByte, byte_at, write_u16_be, write_u32_be, write_u64_be, read_u16_be,
  read_u32_be, read_u64_be, read_u64_step,
}

pub read_u16_be_sum :
    (a b : ℕ) (rest : List ℕ) → IsByte b → read_u16_be (a ∷ b ∷ rest) ≡ a * 256 + b
unfolding read_u16_be
read_u16_be_sum a b rest h = bit_or_shifted 8 a b h

pub read_u32_be_sum :
    (a b c d : ℕ) (rest : List ℕ)
    → IsByte b
    → IsByte c
    → IsByte d
    → read_u32_be (a ∷ b ∷ c ∷ d ∷ rest) ≡ ((a * 256 + b) * 256 + c) * 256 + d
unfolding read_u32_be
read_u32_be_sum a b c d rest hb hc hd =
    let e₁ : bit_or (a * 2 ^ 24) (b * 2 ^ 16) ≡ (a * 256 + b) * 2 ^ 16 =
      omega (arith, bit_or_shifted 24 a (b * 2 ^ 16) (omega arith)) in
    let e₂ : bit_or ((a * 256 + b) * 2 ^ 16) (c * 2 ^ 8) ≡ ((a * 256 + b) * 256 + c) * 2 ^ 8 =
      omega (arith, bit_or_shifted 16 (a * 256 + b) (c * 2 ^ 8) (omega arith)) in
    rw (e₁, e₂) (bit_or_shifted 8 ((a * 256 + b) * 256 + c) d hd)

pub read_u64_step_sum : (v b : ℕ) → v < 2 ^ 56 → IsByte b → read_u64_step v b ≡ v * 256 + b
unfolding read_u64_step
read_u64_step_sum v b hv hb = let e : v % 2 ^ 56 ≡ v = omega arith in rw e (bit_or_shifted 8 v b hb)

pub read-write_u16 : (v : ℕ) (rest : List ℕ) → IsU16 v → read_u16_be (write_u16_be v ++ rest) ≡ v
unfolding write_u16_be
read-write_u16 v rest h = omega (arith, read_u16_be_sum (byte_at v 8) (byte_at v 0) rest)

pub read-write_u32 : (v : ℕ) (rest : List ℕ) → IsU32 v → read_u32_be (write_u32_be v ++ rest) ≡ v
unfolding write_u32_be
read-write_u32 v rest h =
    omega (arith, read_u32_be_sum (byte_at v 24) (byte_at v 16) (byte_at v 8) (byte_at v 0) rest)

-- Eight bytes, highest first.
abbrev pub sum_u64 : ℕ → ℕ → ℕ → ℕ → ℕ → ℕ → ℕ → ℕ → ℕ
sum_u64 a b c d e f g h =
    ((((((a * 256 + b) * 256 + c) * 256 + d) * 256 + e) * 256 + f) * 256 + g) * 256 + h

pub read_u64_be_sum :
    (a b c d e f g h : ℕ) (rest : List ℕ)
    → All IsByte (a ∷ b ∷ c ∷ d ∷ e ∷ f ∷ g ∷ h ∷ [])
    → read_u64_be (a ∷ b ∷ c ∷ d ∷ e ∷ f ∷ g ∷ h ∷ rest) ≡ sum_u64 a b c d e f g h
unfolding read_u64_be
read_u64_be_sum a b c d e f g h rest k =
    let v₂ : ℕ = a * 256 + b in
    let v₃ : ℕ = v₂ * 256 + c in
    let v₄ : ℕ = v₃ * 256 + d in
    let v₅ : ℕ = v₄ * 256 + e in
    let v₆ : ℕ = v₅ * 256 + f in
    let v₇ : ℕ = v₆ * 256 + g in
    let s₁ : read_u64_step 0 a ≡ a =
      omega (arith, read_u64_step_sum 0 a (omega arith) (omega arith)) in
    rw s₁ (
      rw (read_u64_step_sum a b (omega arith) (omega arith)) (
        rw (read_u64_step_sum v₂ c (omega arith) (omega arith)) (
          rw (read_u64_step_sum v₃ d (omega arith) (omega arith)) (
            rw (read_u64_step_sum v₄ e (omega arith) (omega arith)) (
              rw (read_u64_step_sum v₅ f (omega arith) (omega arith)) (
                rw (read_u64_step_sum v₆ g (omega arith) (omega arith))
                  (read_u64_step_sum v₇ h (omega arith) (omega arith))))))))

pub read-write_u64 : (v : ℕ) (rest : List ℕ) → IsU64 v → read_u64_be (write_u64_be v ++ rest) ≡ v
unfolding write_u64_be
read-write_u64 v rest h =
    read_u64_be_sum (byte_at v 56) (byte_at v 48) (byte_at v 40) (byte_at v 32) (byte_at v 24)
      (byte_at v 16) (byte_at v 8) (byte_at v 0) rest (omega arith)
    ∙ omega arith
