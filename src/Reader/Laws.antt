-- ===== src/Reader/Laws.antt =====
-- A read of what a writer wrote gives the number back and leaves what follows; a read that succeeds
-- has read what a writer writes.
use neural_kv.Prelude.{
  ℕ, ◌≡◌, refl, subst, List, [], ◌∷◌, ◌++◌, arith, length, All, take-append, drop-append,
  length-append, take-append-drop, All-take, All-drop, le→ltb, length-take,
}
use neural_kv.Bytes.{IsByte, IsU16, IsU32, IsU64, write_u16_be, write_u32_be, write_u64_be}
use neural_kv.Bytes.RoundTrip.{read-write_u16, read-write_u32, read-write_u64}
use neural_kv.Bytes.Inverse.{
  write-read_u16, write-read_u32, write-read_u64, read-IsU16, read-IsU32, read-IsU64,
}
use neural_kv.Status.{Status}
use neural_kv.Result.{Result, ok, ◌>>=◌, ok_then}
use neural_kv.Reader.{read_bytes, read_u8, read_u16, read_u32, read_u64}

module _ (t : Status) where
  pub read_u8-append : (b : ℕ) (rest : List ℕ) → read_u8 t (b ∷ rest) ≡ ok (b, rest)
  unfolding read_u8
  read_u8-append b rest = refl

  pub read_u16-append :
      (v : ℕ) (rest : List ℕ) → IsU16 v → read_u16 t (write_u16_be v ++ rest) ≡ ok (v, rest)
  unfolding read_u16
  read_u16-append v rest h = rw (read-write_u16 v rest h) (unfold write_u16_be in ground arith)

  pub read_u32-append :
      (v : ℕ) (rest : List ℕ) → IsU32 v → read_u32 t (write_u32_be v ++ rest) ≡ ok (v, rest)
  unfolding read_u32
  read_u32-append v rest h = rw (read-write_u32 v rest h) (unfold write_u32_be in ground arith)

  pub read_u64-append :
      (v : ℕ) (rest : List ℕ) → IsU64 v → read_u64 t (write_u64_be v ++ rest) ≡ ok (v, rest)
  unfolding read_u64
  read_u64-append v rest h = rw (read-write_u64 v rest h) (unfold write_u64_be in ground arith)

  pub read_bytes-append :
      (n : ℕ) (bs rest : List ℕ) → length bs ≡ n → read_bytes t n (bs ++ rest) ≡ ok (bs, rest)
  unfolding read_bytes
  read_bytes-append n bs rest h =
      rw (le→ltb (length (bs ++ rest)) n (omega (arith, length-append bs rest)))
        (rw (take-append n bs rest h, drop-append n bs rest h))

  pub read_u8-eq-ok :
      (bs : List ℕ) {b : ℕ} {rest : List ℕ}
      → All IsByte bs
      → read_u8 t bs ≡ ok (b, rest)
      → (bs ≡ b ∷ rest) × IsByte b × All IsByte rest
  unfolding read_u8
  read_u8-eq-ok [] k h = absurd (ground arith)
  read_u8-eq-ok (x ∷ bs) k h = (ground arith, ground arith, subst (All IsByte) (ground arith) k.1)

  pub read_bytes-eq-ok :
      (n : ℕ) (bs : List ℕ) {front rest : List ℕ}
      → All IsByte bs
      → read_bytes t n bs ≡ ok (front, rest)
      → (bs ≡ front ++ rest) × (length front ≡ n) × All IsByte front × All IsByte rest
  unfolding read_bytes
  read_bytes-eq-ok n bs k h = (
    ground (arith, take-append-drop n bs),
    ground (arith, length-take n bs),
    subst (All IsByte) (ground arith) (All-take IsByte n bs k),
    subst (All IsByte) (ground arith) (All-drop IsByte n bs k),
  )

  pub read_u16-eq-ok :
      (bs : List ℕ) {v : ℕ} {rest : List ℕ}
      → All IsByte bs
      → read_u16 t bs ≡ ok (v, rest)
      → (bs ≡ write_u16_be v ++ rest) × IsU16 v × All IsByte rest
  unfolding read_u16
  read_u16-eq-ok (a ∷ b ∷ bs) k h = (
    ground (arith, write-read_u16 a b bs (omega arith)),
    ground (arith, read-IsU16 a b bs (omega arith)),
    subst (All IsByte) (ground arith) (All-drop IsByte 2 (a ∷ b ∷ bs) k),
  )
  read_u16-eq-ok _ k h = absurd (ground arith)

  pub read_u32-eq-ok :
      (bs : List ℕ) {v : ℕ} {rest : List ℕ}
      → All IsByte bs
      → read_u32 t bs ≡ ok (v, rest)
      → (bs ≡ write_u32_be v ++ rest) × IsU32 v × All IsByte rest
  unfolding read_u32
  read_u32-eq-ok (a ∷ b ∷ c ∷ d ∷ bs) k h = (
    ground (arith, write-read_u32 a b c d bs (omega arith)),
    ground (arith, read-IsU32 a b c d bs (omega arith)),
    subst (All IsByte) (ground arith) (All-drop IsByte 4 (a ∷ b ∷ c ∷ d ∷ bs) k),
  )
  read_u32-eq-ok _ k h = absurd (ground arith)

  pub read_u64-eq-ok :
      (bs : List ℕ) {v : ℕ} {rest : List ℕ}
      → All IsByte bs
      → read_u64 t bs ≡ ok (v, rest)
      → (bs ≡ write_u64_be v ++ rest) × IsU64 v × All IsByte rest
  unfolding read_u64
  read_u64-eq-ok (a ∷ b ∷ c ∷ d ∷ e ∷ f ∷ g ∷ i ∷ bs) k h = (
    ground (arith, write-read_u64 a b c d e f g i bs (omega arith)),
    ground (arith, read-IsU64 a b c d e f g i bs (omega arith)),
    subst (All IsByte) (ground arith) (All-drop IsByte 8 (a ∷ b ∷ c ∷ d ∷ e ∷ f ∷ g ∷ i ∷ bs) k),
  )
  read_u64-eq-ok _ k h = absurd (ground arith)

-- A chain of reads that returned a value, one read at a time.
module _ {ℓ κ} {B : Type ℓ} {C : Type κ} {b : B} (t : Status) where
  pub read_u8-then :
      (bs : List ℕ) (f : ℕ × List ℕ → Result B)
      → All IsByte bs
      → (read_u8 t bs >>= f) ≡ ok b
      → ((v : ℕ) (rest : List ℕ)
          → bs ≡ v ∷ rest
          → IsByte v
          → All IsByte rest
          → f (v, rest) ≡ ok b
          → C)
      → C
  read_u8-then bs f k h go =
      ok_then (read_u8 t bs) f h
        λ x e h'. let (p, v, r) = read_u8-eq-ok t bs k e in go x.0 x.1 p v r h'

  pub read_bytes-then :
      (n : ℕ) (bs : List ℕ) (f : List ℕ × List ℕ → Result B)
      → All IsByte bs
      → (read_bytes t n bs >>= f) ≡ ok b
      → ((front rest : List ℕ)
          → bs ≡ front ++ rest
          → length front ≡ n
          → All IsByte rest
          → f (front, rest) ≡ ok b
          → C)
      → C
  read_bytes-then n bs f k h go =
      ok_then (read_bytes t n bs) f h
        λ x e h'. let (p, l, v, r) = read_bytes-eq-ok t n bs k e in go x.0 x.1 p l r h'

  pub read_u16-then :
      (bs : List ℕ) (f : ℕ × List ℕ → Result B)
      → All IsByte bs
      → (read_u16 t bs >>= f) ≡ ok b
      → ((v : ℕ) (rest : List ℕ)
          → bs ≡ write_u16_be v ++ rest
          → IsU16 v
          → All IsByte rest
          → f (v, rest) ≡ ok b
          → C)
      → C
  read_u16-then bs f k h go =
      ok_then (read_u16 t bs) f h
        λ x e h'. let (p, v, r) = read_u16-eq-ok t bs k e in go x.0 x.1 p v r h'

  pub read_u32-then :
      (bs : List ℕ) (f : ℕ × List ℕ → Result B)
      → All IsByte bs
      → (read_u32 t bs >>= f) ≡ ok b
      → ((v : ℕ) (rest : List ℕ)
          → bs ≡ write_u32_be v ++ rest
          → IsU32 v
          → All IsByte rest
          → f (v, rest) ≡ ok b
          → C)
      → C
  read_u32-then bs f k h go =
      ok_then (read_u32 t bs) f h
        λ x e h'. let (p, v, r) = read_u32-eq-ok t bs k e in go x.0 x.1 p v r h'

  pub read_u64-then :
      (bs : List ℕ) (f : ℕ × List ℕ → Result B)
      → All IsByte bs
      → (read_u64 t bs >>= f) ≡ ok b
      → ((v : ℕ) (rest : List ℕ)
          → bs ≡ write_u64_be v ++ rest
          → IsU64 v
          → All IsByte rest
          → f (v, rest) ≡ ok b
          → C)
      → C
  read_u64-then bs f k h go =
      ok_then (read_u64 t bs) f h
        λ x e h'. let (p, v, r) = read_u64-eq-ok t bs k e in go x.0 x.1 p v r h'
