-- ===== src/Testing/LinearizabilityChecker/Sound.antt =====
-- That the checker raises no false alarm.
use neural_kv.Prelude.{
  ℕ, zero, suc, ◌+◌, ◌≤◌, ◌<◌, ◌≡◌, ◌≢◌, ◌⊎◌, refl, ap, ◌∙◌, inl, inr, List, [], ◌∷◌, Bool, true,
  false, some, arith, Bool-cases, eqb, eqb_refl, ◌==◌, get_elem?, sym, ◌&&◌, leb,
}
use neural_kv.Testing.LinearizabilityChecker.{
  LinearizabilityOp, consistent, is_ok_set, is_ok_get, ok_sets, any, writes_value, is_candidate,
  supersedes, validates, check_get, check_all, check,
}

any_set :
    (test : ℕ × LinearizabilityOp → Bool) (ops : List LinearizabilityOp) (k i : ℕ)
    (w : LinearizabilityOp)
    → get_elem? ops i ≡ some w
    → is_ok_set w ≡ true
    → test (i + k, w) ≡ true
    → any test (ok_sets k ops) ≡ true
unfolding any ok_sets
any_set test [] k i w there is_set passes = absurd (ground (arith, there))
any_set test (op ∷ ops) k zero w there is_set passes =
    let same : op ≡ w = ground (arith, there) in
    let here : is_ok_set op ≡ true = ap is_ok_set same ∙ is_set in
    let passes' : test (k, op) ≡ true =
      ap (λ o. test (k, o)) same ∙ ap (λ n. test (n, w)) (omega arith) ∙ passes in
    rw (here, passes') refl
any_set test (op ∷ ops) k (suc i) w there is_set passes =
    let rest =
      any_set test ops (suc k) i w there is_set (ap (λ n. test (n, w)) (omega arith) ∙ passes) in
    elim (Bool-cases (is_ok_set op)) [
      | inl here ↦ ground (arith, here, rest)
      | inr gone ↦ ground (arith, gone, rest)
    ]

no_set :
    (test : ℕ × LinearizabilityOp → Bool) (ops : List LinearizabilityOp) (k : ℕ)
    → ((i : ℕ) (w : LinearizabilityOp)
        → get_elem? ops i ≡ some w
        → is_ok_set w ≡ true
        → test (i + k, w) ≡ false)
    → any test (ok_sets k ops) ≡ false
unfolding any ok_sets
no_set test [] k fails = refl
no_set test (op ∷ ops) k fails =
    let rest =
      no_set test ops (suc k)
        λ i w there is_set. ap (λ n. test (n, w)) (omega arith) ∙ fails (suc i) w there is_set in
    elim (Bool-cases (is_ok_set op)) [
      | inl here ↦
          let first : test (k, op) ≡ false =
            ap (λ n. test (n, op)) (omega arith) ∙ fails 0 op refl here in
          ground (arith, here, first, rest)
      | inr gone ↦ ground (arith, gone, rest)
    ]

-- A point in time for each operation, by its position.
module _ (history : List LinearizabilityOp) (point : ℕ → ℕ) where
  -- Each operation that succeeded takes effect between its start and its end.
  abbrev pub TakesEffectWithin : Type 0
  TakesEffectWithin =
      (i : ℕ) (op : LinearizabilityOp)
      → get_elem? history i ≡ some op
      → op.ok ≡ true
      → (op.start ≤ point i) × (point i ≤ op.end)

  -- No two operations that succeeded take effect at once.
  abbrev pub TakeEffectApart : Type 0
  TakeEffectApart =
      (i j : ℕ) (v w : LinearizabilityOp)
      → get_elem? history i ≡ some v
      → get_elem? history j ≡ some w
      → v.ok ≡ true
      → w.ok ≡ true
      → i ≢ j
      → point i ≢ point j

  -- Each read that succeeded returns what the last write before it wrote.
  abbrev pub ReadsLastWrite : Type 0
  ReadsLastWrite =
      (i : ℕ) (g : LinearizabilityOp)
      → get_elem? history i ≡ some g
      → is_ok_get g ≡ true
      → (j : ℕ) × (w : LinearizabilityOp) × (get_elem? history j ≡ some w)
        × (is_ok_set w ≡ true)
        × (g.value ≡ w.value)
        × (point j < point i)
        × ((k : ℕ) (w₂ : LinearizabilityOp)
            → get_elem? history k ≡ some w₂
            → is_ok_set w₂ ≡ true
            → (point k ≤ point j) ⊎ (point i ≤ point k))

  ok_set_ok : (op : LinearizabilityOp) → is_ok_set op ≡ true → op.ok ≡ true
  ok_set_ok op h = ground (arith, h)

  ok_get_ok : (op : LinearizabilityOp) → is_ok_get op ≡ true → op.ok ≡ true
  ok_get_ok op h = ground (arith, h)

  not_between :
      (w w₂ g : LinearizabilityOp) (at_w at_w₂ at_g : ℕ) (other : Bool)
      → at_w ≤ w.end
      → w₂.start ≤ at_w₂
      → at_w₂ ≤ w₂.end
      → g.start ≤ at_g
      → (at_w₂ ≤ at_w) ⊎ (at_g ≤ at_w₂)
      → at_w₂ ≢ at_w
      → at_w₂ ≢ at_g
      → (other && (leb w.end w₂.start && leb w₂.end g.start)) ≡ false
  not_between w w₂ g at_w at_w₂ at_g other h₁ h₂ h₃ h₄ split apart_w apart_g =
      elim (Bool-cases (leb w.end w₂.start && leb w₂.end g.start)) [
        | inr not_both ↦ ground (arith, not_both)
        | inl both ↦ elim split [
          | inl early ↦ absurd (apart_w (ground (arith, both, early)))
          | inr late ↦ absurd (apart_g (ground (arith, both, late)))
        ]
      ]

  -- A read and a write are not at one position.
  get_not_set :
      (i k : ℕ) (g w : LinearizabilityOp)
      → get_elem? history i ≡ some g
      → get_elem? history k ≡ some w
      → is_ok_get g ≡ true
      → is_ok_set w ≡ true
      → k ≢ i
  get_not_set i k g w g_there w_there is_get is_set e =
      let same : w ≡ g = ground (arith, g_there, w_there, ap (λ n. get_elem? history n) e) in
      absurd (ground (arith, is_get, sym (ap is_ok_set same) ∙ is_set))

  get_consistent :
      (i : ℕ) (g : LinearizabilityOp)
      → TakesEffectWithin
      → TakeEffectApart
      → ReadsLastWrite
      → get_elem? history i ≡ some g
      → check_get (ok_sets 0 history) g ≡ consistent
  unfolding check_get validates
  get_consistent i g within apart reads there = elim (Bool-cases (is_ok_get g)) [
    | inr other ↦ rw (check_get, other) refl
    | inl is_get ↦
        let (j, w, w_there, w_set, same, before, last) = reads i g there is_get in
        let (g_from, g_to) = within i g there (ok_get_ok g is_get) in
        let (w_from, w_to) = within j w w_there (ok_set_ok w w_set) in
        let written : eqb w.value g.value ≡ true =
          ap (λ v. eqb w.value v) same ∙ eqb_refl w.value in
        let candidate : is_candidate w g ≡ true =
          ground (arith, w_from, w_to, g_from, g_to, before) in
        let newest : any (supersedes g (j + 0, w)) (ok_sets 0 history) ≡ false =
          no_set (supersedes g (j + 0, w)) history 0 λ k w₂ k_there k_set.
            let (v_from, v_to) = within k w₂ k_there (ok_set_ok w₂ k_set) in
            let split = last k w₂ k_there k_set in
            elim (Bool-cases (k + 0 == j + 0)) [
              | inl alike ↦ ground (arith, alike)
              | inr differ ↦
                  let w_ok = ok_set_ok w₂ k_set in
                  let not_write =
                    apart k j w₂ w k_there w_there w_ok (ok_set_ok w w_set)
                      (λ e. ground (arith, differ, e)) in
                  not_between w w₂ g (point j) (point k) (point i) _ w_to v_from v_to g_from split
                    not_write
                    (apart k i w₂ g k_there there w_ok (ok_get_ok g is_get)
                      (get_not_set i k g w₂ there k_there is_get k_set))
            ] in
        let valid : validates (ok_sets 0 history) g (j + 0, w) ≡ true =
          ground (arith, written, candidate, newest) in
        let ever = any_set (writes_value g) history 0 j w w_there w_set written in
        let found = any_set (validates (ok_sets 0 history) g) history 0 j w w_there w_set valid in
        rw (check_get, is_get, ever, found) refl
  ]

  all_consistent :
      (ops : List LinearizabilityOp)
      → ((i : ℕ) (g : LinearizabilityOp)
          → get_elem? ops i ≡ some g
          → check_get (ok_sets 0 history) g ≡ consistent)
      → check_all (ok_sets 0 history) ops ≡ consistent
  unfolding check_all
  all_consistent [] each = refl
  all_consistent (op ∷ ops) each =
      rw (check_all, each 0 op refl) (all_consistent ops λ i g there. each (suc i) g there)

  -- The checker raises no false alarm: a history whose operations can be given points in time, each
  -- between the start and the end of its operation and those of any two that succeeded distinct,
  -- such that every read that succeeded returns the value of the last successful write before it,
  -- is reported as consistent.
  pub check-consistent :
      TakesEffectWithin → TakeEffectApart → ReadsLastWrite → check history ≡ consistent
  unfolding check
  check-consistent within apart reads =
      all_consistent history λ i g there. get_consistent i g within apart reads there
