-- ===== src/Bytes/Inverse.antt =====
-- What the writers make of a number that a reader took from bytes.
use neural_kv.Prelude.{ℕ, ◌+◌, ◌*◌, ◌≡◌, List, [], ◌∷◌, arith, All}
use neural_kv.Bytes.{
  IsU32, IsU64, IsU16, IsByte, byte_at, write_u16_be, write_u32_be, write_u64_be, read_u16_be,
  read_u32_be, read_u64_be,
}
use neural_kv.Bytes.RoundTrip.{read_u16_be_sum, read_u32_be_sum, read_u64_be_sum, sum_u64}

pub write-read_u16 :
    (a b : ℕ) (rest : List ℕ)
    → All IsByte (a ∷ b ∷ [])
    → write_u16_be (read_u16_be (a ∷ b ∷ rest)) ≡ a ∷ b ∷ []
unfolding write_u16_be
write-read_u16 a b rest k =
    let v : ℕ = a * 256 + b in
    let e₁ : byte_at v 8 ≡ a = omega arith in
    let e₂ : byte_at v 0 ≡ b = omega arith in rw (read_u16_be_sum a b rest k.1.0) (cc (e₁, e₂))

pub write-read_u32 :
    (a b c d : ℕ) (rest : List ℕ)
    → All IsByte (a ∷ b ∷ c ∷ d ∷ [])
    → write_u32_be (read_u32_be (a ∷ b ∷ c ∷ d ∷ rest)) ≡ a ∷ b ∷ c ∷ d ∷ []
unfolding write_u32_be
write-read_u32 a b c d rest k =
    let v : ℕ = ((a * 256 + b) * 256 + c) * 256 + d in
    let e₁ : byte_at v 24 ≡ a = omega arith in
    let e₂ : byte_at v 16 ≡ b = omega arith in
    let e₃ : byte_at v 8 ≡ c = omega arith in
    let e₄ : byte_at v 0 ≡ d = omega arith in
    rw (read_u32_be_sum a b c d rest (omega arith) (omega arith) (omega arith))
      (cc (e₁, e₂, e₃, e₄))

pub write-read_u64 :
    (a b c d e f g h : ℕ) (rest : List ℕ)
    → All IsByte (a ∷ b ∷ c ∷ d ∷ e ∷ f ∷ g ∷ h ∷ [])
    → write_u64_be (read_u64_be (a ∷ b ∷ c ∷ d ∷ e ∷ f ∷ g ∷ h ∷ rest))
      ≡ a ∷ b ∷ c ∷ d ∷ e ∷ f ∷ g ∷ h ∷ []
unfolding write_u64_be
write-read_u64 a b c d e f g h rest k =
    let v : ℕ = sum_u64 a b c d e f g h in
    let e₁ : byte_at v 56 ≡ a = omega arith in
    let e₂ : byte_at v 48 ≡ b = omega arith in
    let e₃ : byte_at v 40 ≡ c = omega arith in
    let e₄ : byte_at v 32 ≡ d = omega arith in
    let e₅ : byte_at v 24 ≡ e = omega arith in
    let e₆ : byte_at v 16 ≡ f = omega arith in
    let e₇ : byte_at v 8 ≡ g = omega arith in
    let e₈ : byte_at v 0 ≡ h = omega arith in
    rw (read_u64_be_sum a b c d e f g h rest k) (cc (e₁, e₂, e₃, e₄, e₅, e₆, e₇, e₈))

pub read-IsU16 :
    (a b : ℕ) (rest : List ℕ) → All IsByte (a ∷ b ∷ []) → IsU16 (read_u16_be (a ∷ b ∷ rest))
read-IsU16 a b rest k = omega (arith, read_u16_be_sum a b rest)

pub read-IsU32 :
    (a b c d : ℕ) (rest : List ℕ)
    → All IsByte (a ∷ b ∷ c ∷ d ∷ [])
    → IsU32 (read_u32_be (a ∷ b ∷ c ∷ d ∷ rest))
read-IsU32 a b c d rest k = omega (arith, read_u32_be_sum a b c d rest)

pub read-IsU64 :
    (a b c d e f g h : ℕ) (rest : List ℕ)
    → All IsByte (a ∷ b ∷ c ∷ d ∷ e ∷ f ∷ g ∷ h ∷ [])
    → IsU64 (read_u64_be (a ∷ b ∷ c ∷ d ∷ e ∷ f ∷ g ∷ h ∷ rest))
read-IsU64 a b c d e f g h rest k = omega (arith, read_u64_be_sum a b c d e f g h rest)
