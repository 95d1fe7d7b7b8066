-- ===== src/Testing/LinearizabilityChecker.antt =====
-- testing/linearizability_checker.h: Check. A pointer to an operation is its position in the history.
pub mod Sound
use neural_kv.Prelude.{
  ℕ, suc, List, [], ◌∷◌, Bool, true, false, not, ◌&&◌, ◌||◌, leb, ltb, eqb, ◌==◌, if◌then◌else◌,
}

pub data Kind : Type 0 where
  set get : Kind

pub record LinearizabilityOp : Type 0 where
  pub client_id : ℕ
  pub kind : Kind
  pub value : List ℕ
  pub ok : Bool
  pub start : ℕ
  pub end : ℕ

-- The two descriptions of a violation, and their absence.
pub data Verdict : Type 0 where
  consistent : Verdict
  never_written stale : ℕ → List ℕ → Verdict

abbrev pub is_ok_set : LinearizabilityOp → Bool
is_ok_set op = elim op.kind [ set ↦ op.ok | get ↦ false ]

abbrev pub is_ok_get : LinearizabilityOp → Bool
is_ok_get op = elim op.kind [ set ↦ false | get ↦ op.ok ]

-- The first loop: the writes that succeeded, with their positions.
unfoldable pub ok_sets : ℕ → List LinearizabilityOp → List (ℕ × LinearizabilityOp)
ok_sets i [] = []
ok_sets i (op ∷ ops) =
    let rest = ok_sets (suc i) ops in if is_ok_set op then (i, op) ∷ rest else rest

-- A loop that sets a flag and breaks at the first element that passes a test.
unfoldable pub any : (ℕ × LinearizabilityOp → Bool) → List (ℕ × LinearizabilityOp) → Bool
any test [] = false
any test (x ∷ xs) = let rest = any test xs in test x || rest

abbrev pub writes_value : LinearizabilityOp → ℕ × LinearizabilityOp → Bool
writes_value g w = eqb w.1.value g.value

-- `is_candidate`
abbrev pub is_candidate : LinearizabilityOp → LinearizabilityOp → Bool
is_candidate w g = leb w.end g.start || (ltb w.start g.end && ltb g.start w.end)

-- The test of the loop that sets `superseded`.
abbrev pub supersedes : LinearizabilityOp → ℕ × LinearizabilityOp → ℕ × LinearizabilityOp → Bool
supersedes g w w₂ = not (w₂.0 == w.0) && (leb w.1.end w₂.1.start && leb w₂.1.end g.start)

-- The test of the loop that sets `valid`.
unfoldable pub validates :
    List (ℕ × LinearizabilityOp) → LinearizabilityOp → ℕ × LinearizabilityOp → Bool
unfolding any
validates sets g w = writes_value g w && (is_candidate w.1 g && not (any (supersedes g w) sets))

-- The body of the second loop.
unfoldable pub check_get : List (ℕ × LinearizabilityOp) → LinearizabilityOp → Verdict
unfolding any validates
check_get sets g =
    if not (is_ok_get g)
    then consistent
    else if not (any (writes_value g) sets)
    then never_written g.client_id g.value
    else if any (validates sets g) sets
    then consistent
    else stale g.client_id g.value

unfoldable pub check_all : List (ℕ × LinearizabilityOp) → List LinearizabilityOp → Verdict
unfolding check_get
check_all sets [] = consistent
check_all sets (op ∷ ops) =
    let rest = check_all sets ops in
    elim (check_get sets op) [
      | consistent ↦ rest
      | never_written id v ↦ never_written id v
      | stale id v ↦ stale id v
    ]

-- Check
unfoldable pub check : List LinearizabilityOp → Verdict
unfolding ok_sets check_all
check history = check_all (ok_sets 0 history) history
