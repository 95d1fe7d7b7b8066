-- ===== src/Persistence/WalWriter/GroupCommit.antt =====
-- Group commit: what `Sync` promises, whatever arrives while it waits.
use neural_kv.Prelude.{
  ℕ, ◌+◌, ◌-◌, ◌≡◌, refl, sym, ap, ◌∙◌, subst, List, [], ◌∷◌, ◌++◌, Bool, true, false, arith,
  length, take, append_assoc, append-nil, ltb, not, ◌==◌, if◌then◌else◌,
}
use neural_kv.Status.{okay}
use neural_kv.Persistence.WalRecord.{WalRecord, IsValidRecord}
use neural_kv.Persistence.WalWriter.{
  WalWriter, WriteOutcome, written, succeeds, append, arrive, Tick, group_wait, lead_flush,
  max_records,
}
use neural_kv.Persistence.WalWriter.Invariant.{Holds, numbered_record, append-Holds}

-- What arrives is written whole, and each record is valid under the index that it gets.
abbrev pub Arrivable : ℕ → List (WalRecord × WriteOutcome) → Type 0
Arrivable last [] = Unit {0}
Arrivable last ((r, outcome) ∷ rest) =
    (outcome ≡ written) × IsValidRecord (numbered_record last r) × Arrivable (last + 1) rest

abbrev pub TicksArrivable : ℕ → List Tick → Type 0
TicksArrivable last [] = Unit {0}
TicksArrivable last (t ∷ ts) =
    Arrivable last t.arrivals × TicksArrivable (last + length t.arrivals) ts

-- `w'` is `w` after some more appends: records were added, and nothing else has changed.
pub record Grown (w : WalWriter) (rs : List WalRecord) (w' : WalWriter) : Type 0 where
  pub extra : List WalRecord
  pub holds : Holds w' (rs ++ extra)
  pub same_synced : w'.synced_index ≡ w.synced_index
  pub same_flush : w'.flush_in_progress ≡ w.flush_in_progress

pub Grown-refl : (w : WalWriter) (rs : List WalRecord) → Holds w rs → Grown w rs w
Grown-refl w rs h = record {
  extra = [];
  holds = subst (Holds w) (sym (append-nil rs)) h;
  same_synced = refl;
  same_flush = refl;
}

pub Grown-trans :
    (w w' w'' : WalWriter) (rs : List WalRecord) (g : Grown w rs w')
    → Grown w' (rs ++ g.extra) w''
    → Grown w rs w''
Grown-trans w w' w'' rs g k = record {
  extra = g.extra ++ k.extra;
  holds = subst (Holds w'') (append_assoc rs g.extra k.extra) k.holds;
  same_synced = k.same_synced ∙ g.same_synced;
  same_flush = k.same_flush ∙ g.same_flush;
}

pub append-Grown :
    (w : WalWriter) (rs : List WalRecord) (h : Holds w rs) (r : WalRecord)
    → IsValidRecord (numbered_record w.last_index r)
    → Grown w rs (append r written w).1
append-Grown w rs h r v = record {
  extra = numbered_record w.last_index r ∷ [];
  holds = (append-Holds w rs h r v).1;
  same_synced = unfold append in ground (arith, h.is_open);
  same_flush = unfold append in ground (arith, h.is_open);
}

last-append :
    (w : WalWriter) (rs : List WalRecord) (h : Holds w rs) (r : WalRecord)
    → (append r written w).1.last_index ≡ w.last_index + 1
unfolding append
last-append w rs h r = ground (arith, h.is_open)

arrive-Grown :
    (rest : List (WalRecord × WriteOutcome)) (w : WalWriter) (rs : List WalRecord)
    → Holds w rs
    → Arrivable w.last_index rest
    → Grown w rs (arrive rest w) × ((arrive rest w).last_index ≡ w.last_index + length rest)
unfolding arrive
arrive-Grown [] w rs h k = (Grown-refl w rs h, omega arith)
arrive-Grown ((r, outcome) ∷ rest) w rs h (e, v, k) =
    let w₁ = (append r written w).1 in
    let g₁ = append-Grown w rs h r v in
    let last₁ = last-append w rs h r in
    let (g₂, last₂) =
      arrive-Grown rest w₁ (rs ++ g₁.extra) g₁.holds
        (subst (λ n. Arrivable n rest) (sym last₁) k) in
    rw e (Grown-trans w w₁ (arrive rest w₁) rs g₁ g₂, omega arith)

pub group_wait-Grown :
    (ts : List Tick) (observed : ℕ) (w : WalWriter) (rs : List WalRecord)
    → Holds w rs
    → TicksArrivable w.last_index ts
    → Grown w rs (group_wait ts observed w)
unfolding group_wait
group_wait-Grown [] observed w rs h k = Grown-refl w rs h
group_wait-Grown (t ∷ ts) observed w rs h k =
    let w₁ = arrive t.arrivals w in
    let (g₁, last₁) = arrive-Grown t.arrivals w rs h k.0 in
    let later = Grown-trans w w₁ (group_wait ts w₁.last_index w₁) rs g₁ (
      group_wait-Grown ts w₁.last_index w₁ (rs ++ g₁.extra) g₁.holds
        (subst (λ n. TicksArrivable n ts) (sym last₁) k.1)) in
    choose (not (ltb (w.last_index - w.synced_index) max_records)) t.past_deadline
      (w₁.last_index == observed) (Grown w rs) (Grown-refl w rs h) g₁ later
  where
    choose :
        (full late quiet : Bool) (P : WalWriter → Type 0) {stay moved on : WalWriter}
        → P stay
        → P moved
        → P on
        → P (if full then stay else if late then stay else if quiet then moved else on)
    choose true late quiet P a b c = a
    choose false true quiet P a b c = a
    choose false false true P a b c = b
    choose false false false P a b c = c

pub marked-Holds :
    (w : WalWriter) (rs : List WalRecord)
    → Holds w rs
    → Holds (record w { flush_in_progress = true }) rs
marked-Holds w rs h = record {
  is_open = h.is_open;
  file_is = h.file_is;
  valid = h.valid;
  numbered = h.numbered;
  last_is = h.last_is;
  synced_le = h.synced_le;
  durable_le = h.durable_le;
  durable_covers = h.durable_covers;
}

pub take-length {ℓ} : {A : Type ℓ} (xs : List A) → take (length xs) xs ≡ xs
take-length [] = refl
take-length (x ∷ xs) = ap (λ l. x ∷ l) (take-length xs)

-- After an fsync of the whole file every record is durable.
pub flushed-Holds :
    (w : WalWriter) (rs : List WalRecord) (n : ℕ)
    → Holds w rs
    → Holds
        (record w {
          durable = length w.file;
          fsync_count = n;
          synced_index = w.last_index;
          flush_in_progress = false;
        })
        rs
flushed-Holds w rs n h = record {
  is_open = h.is_open;
  file_is = h.file_is;
  valid = h.valid;
  numbered = h.numbered;
  last_is = h.last_is;
  synced_le = omega (arith, h.last_is);
  durable_le = omega arith;
  durable_covers = ground (arith, h.last_is, h.file_is, take-length rs);
}

pub lead_flush-Holds :
    (at_least : ℕ) (ticks : List Tick) (w : WalWriter) (rs : List WalRecord)
    → Holds w rs
    → TicksArrivable w.last_index ticks
    → let out = lead_flush at_least ticks succeeds w in
      (out.0 ≡ okay)
      × (extra : List WalRecord) × Holds out.1 (rs ++ extra)
      × (out.1.synced_index ≡ length (rs ++ extra))
unfolding lead_flush
lead_flush-Holds at_least ticks w rs h k =
    let w₁ : WalWriter = record w { flush_in_progress = true } in
    let waited = group_wait ticks w.last_index w₁ in
    let g = group_wait-Grown ticks w.last_index w₁ rs (marked-Holds w rs h) k in
    (
      refl,
      g.extra,
      flushed-Holds waited (rs ++ g.extra) (waited.fsync_count + 1) g.holds,
      g.holds.last_is,
    )
