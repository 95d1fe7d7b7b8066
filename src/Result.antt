-- ===== src/Result.antt =====
-- common/result.h: a value, or the status that says why there is none. The constructors are the two
-- alternatives of the variant; that a stored status is not Ok is the assertion of its constructor.
use neural_kv.Prelude.{◌≡◌, ◌⊎◌, inl, inr, refl, Bool, true, false, arith}
use neural_kv.Status.{Status, okay}

pub data Result {ℓ} (A : Type ℓ) : Type ℓ where
  ok : A → Result A
  err : Status → Result A

-- Result::ok() and Result::status()
abbrev pub has_value {ℓ} : {A : Type ℓ} → Result A → Bool
has_value (ok a) = true
has_value (err s) = false

abbrev pub status {ℓ} : {A : Type ℓ} → Result A → Status
status (ok a) = okay
status (err s) = s

-- `if (!r.ok()) return r.status();` and the rest of the function.
infixl 5 ◌>>=◌ ◌>>◌
abbrev pub ◌>>=◌ {ℓ κ} : {A : Type ℓ} {B : Type κ} → Result A → (A → Result B) → Result B
ok a >>= f = f a
err s >>= f = err s

abbrev pub ◌>>◌ {ℓ} : {B : Type ℓ} → Result (Unit {0}) → Result B → Result B
m >> k = m >>= λ _. k

-- `if (bad) return status;`
abbrev pub refuse_if : Bool → Status → Result (Unit {0})
refuse_if true s = err s
refuse_if false s = ok tt

-- Inversion of a chain that returned a value: the continuation is given each part.
module _ {ℓ κ} {B : Type ℓ} {C : Type κ} {b : B} where
  pub ok_then {ι} :
      {A : Type ι} (m : Result A) (f : A → Result B)
      → (m >>= f) ≡ ok b
      → ((a : A) → m ≡ ok a → f a ≡ ok b → C)
      → C
  ok_then (ok a) f h go = go a refl h
  ok_then (err s) f h go = absurd (ground arith)

  pub refuse_if-then :
      (bad : Bool) (s : Status) (rest : Result B)
      → (refuse_if bad s >> rest) ≡ ok b
      → (bad ≡ false → rest ≡ ok b → C)
      → C
  refuse_if-then true s rest h go = absurd (ground arith)
  refuse_if-then false s rest h go = go refl h

pub Result-cases {ℓ} :
    {A : Type ℓ} (r : Result A) → ((a : A) × (r ≡ ok a)) ⊎ ((s : Status) × (r ≡ err s))
Result-cases (ok a) = inl (a, refl)
Result-cases (err s) = inr (s, refl)
