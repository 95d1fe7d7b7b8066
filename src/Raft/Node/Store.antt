-- ===== src/Raft/Node/Store.antt =====
-- The loop of HandleAppendEntries over the entries, when every system call succeeds.
use neural_kv.Prelude.{
  ℕ, zero, suc, ◌+◌, ◌-◌, ◌≤◌, ◌<◌, ◌≡◌, inl, inr, refl, sym, ap, ◌∙◌, subst, List, [], ◌∷◌, ◌++◌,
  none, some, arith, length, get_elem?, take, All, ◌==◌, ==→eq, ltb, ltb→lt, ltb→le, Bool-cases,
  Option-cases, length-append, length-take, take-append, append-nil,
}
use neural_kv.Bytes.{IsU64}
use neural_kv.Persistence.WalRecord.{IsValidRecord}
use neural_kv.Persistence.WalWriter.{WalWriter, written, succeeds}
use neural_kv.Persistence.WalWriter.Invariant.{numbered_record, Numbered}
use neural_kv.Persistence.WalWriter.Rewrite.{all_succeed}
use neural_kv.Raft.{LogEntry}
use neural_kv.Raft.Log.{append, truncate_from, get}
use neural_kv.Raft.Log.Laws.{InStep, append-InStep, truncate_from-InStep, get-Numbered}
use neural_kv.Raft.Node.{RaftNode, Clock, PersistOutcome, log_of, put_log}
use neural_kv.Raft.Node.Handlers.{AppendEntriesIo, store_entry, store_entries}

-- Every write and fsync of the log succeeds.
abbrev pub smooth : WalWriter → Clock → PersistOutcome → AppendEntriesIo
smooth wake clock step_down = record {
  clock = clock;
  step_down = step_down;
  truncate = λ index. all_succeed;
  append = λ index. record { write = written; wake = wake; ticks = []; flush = succeeds };
}

-- The log has an entry of this term at this index.
unfoldable pub HasTerm : ℕ → ℕ → List LogEntry → Type 0
HasTerm index term entries = (e : LogEntry) × (get index entries ≡ some e) × (e.term ≡ term)

renumbered :
    (e : LogEntry) (i : ℕ) → IsValidRecord e → IsU64 (i + 1) → IsValidRecord (numbered_record i e)
renumbered e i v fits = record {
  term_fits = v.term_fits;
  index_fits = fits;
  key_there = v.key_there;
  key_fits = v.key_fits;
  value_there = v.value_there;
  value_fits = v.value_fits;
}

get-some : (i : ℕ) (es : List LogEntry) (e : LogEntry) → get (i + 1) es ≡ some e → i + 1 ≤ length es
unfolding get
get-some i es e h = ground (arith, h)

get-none : (i : ℕ) (es : List LogEntry) → Numbered 1 es → get (i + 1) es ≡ none → length es ≤ i
get-none i es numbered h = elim (Bool-cases (ltb i (length es))) [
  | inr out ↦ ltb→le i (length es) out
  | inl small ↦
      let (e, found, at, index) = get-Numbered i es numbered (ltb→lt i (length es) small) in
      let same : i + 1 ≡ suc i = omega arith in absurd (ground (arith, h, found, same))
]

get_elem?-last :
    (es : List LogEntry) (e : LogEntry) → get_elem? (es ++ (e ∷ [])) (length es) ≡ some e
get_elem?-last [] e = refl
get_elem?-last (x ∷ es) e = get_elem?-last es e

some_same : {a b : LogEntry} → some a ≡ some b → a ≡ b
some_same {b = b} e = ap (λ o. elim o [ some a ↦ a | none ↦ b ]) e

get_elem?-take : (i k : ℕ) (es : List LogEntry) → i < k → get_elem? (take k es) i ≡ get_elem? es i
get_elem?-take i zero es h = absurd (omega arith)
get_elem?-take i (suc k) [] h = refl
get_elem?-take zero (suc k) (e ∷ es) h = refl
get_elem?-take (suc i) (suc k) (e ∷ es) h = get_elem?-take i k es (omega arith)

get-take : (j : ℕ) (es : List LogEntry) → get j (take j es) ≡ get j es
unfolding get
get-take zero es = ground arith
get-take (suc i) es =
    ground (arith, length-take (suc i) es, get_elem?-take i (suc i) es (omega arith))

HasTerm-take :
    (j term : ℕ) (a b : List LogEntry) → take j a ≡ take j b → HasTerm j term b → HasTerm j term a
unfolding HasTerm
HasTerm-take j term a b same (e, found, is) =
    (e, sym (get-take j a) ∙ ap (get j) same ∙ get-take j b ∙ found, is)

take-take : (i : ℕ) (es : List LogEntry) → take i (take (suc i) es) ≡ take i es
take-take zero es = refl
take-take (suc i) [] = refl
take-take (suc i) (e ∷ es) = ap (λ l. e ∷ l) (take-take i es)

shorter : (i : ℕ) (a b : List LogEntry) → take (i + 1) a ≡ take (i + 1) b → take i a ≡ take i b
shorter i a b same =
    let e : i + 1 ≡ suc i = omega arith in
    sym (take-take i a) ∙ ap (take i) (subst (λ k. take k a ≡ take k b) e same) ∙ take-take i b

take-length : (i : ℕ) (es : List LogEntry) → length es ≡ i → take i es ≡ es
take-length i es full = ap (λ l. take i l) (sym (append-nil es)) ∙ take-append i es [] full

pub HasTerm-reaches : (i term : ℕ) (es : List LogEntry) → HasTerm i term es → i ≤ length es
unfolding HasTerm get
HasTerm-reaches i term es (e, found, is) = ground (arith, found)

module _ (wake : WalWriter) (clock : Clock) (step_down : PersistOutcome) where
  abbrev io : AppendEntriesIo
  io = smooth wake clock step_down

  -- What one round is to leave behind of a log that was `es`.
  pub record Stored (i : ℕ) (term : ℕ) (es : List LogEntry) (n : RaftNode) : Type 0 where
    pub in_step : InStep (log_of n)
    pub reaches : i + 1 ≤ length n.entries
    pub agrees : HasTerm (i + 1) term n.entries
    pub before : take i n.entries ≡ es

  behind :
      {i term : ℕ} {es es' : List LogEntry} {n : RaftNode}
      → es ≡ es'
      → Stored i term es n
      → Stored i term es' n
  behind e s = record {
    in_step = s.in_step;
    reaches = s.reaches;
    agrees = s.agrees;
    before = s.before ∙ e;
  }

  append-Stored :
      (i : ℕ) (entry : LogEntry) (n : RaftNode)
      → InStep (log_of n)
      → IsValidRecord entry
      → IsU64 (i + 1)
      → length n.entries ≡ i
      → Stored i entry.term n.entries (put_log (append entry (io.append (i + 1)) (log_of n)).1 n)
  unfolding HasTerm
  append-Stored i entry n h v fits full =
      let numbered = numbered_record (length n.entries) entry in
      let (result, entries, in_step) =
        append-InStep (log_of n) h entry wake
          (renumbered entry (length n.entries) v (omega (arith, full))) in
      let new = n.entries ++ (numbered ∷ []) in
      let reach : length new ≡ suc (length n.entries) =
        omega (arith, length-append n.entries (numbered ∷ [])) in
      let (e, found, at, index) =
        get-Numbered (length n.entries) new (subst (Numbered 1) entries in_step.on_disk.numbered)
          (omega (arith, reach)) in
      let e_is : e ≡ numbered = some_same (sym at ∙ get_elem?-last n.entries numbered) in
      let same : suc (length n.entries) ≡ i + 1 = omega (arith, full) in
      record {
        in_step = in_step;
        reaches = rw entries (omega (arith, reach, full));
        agrees =
            rw entries
              (e, subst (λ k. get k new ≡ some e) same found, ap (λ (r : LogEntry). r.term) e_is);
        before = rw entries (take-append i n.entries (numbered ∷ []) full);
      }

  store_entry-Stored :
      (i : ℕ) (entry : LogEntry) (n : RaftNode)
      → InStep (log_of n)
      → IsValidRecord entry
      → IsU64 (i + 1)
      → i ≤ length n.entries
      → Stored i entry.term (take i n.entries) (store_entry io (i + 1) entry n)
  unfolding store_entry HasTerm
  store_entry-Stored i entry n h v fits there = elim (Option-cases (get (i + 1) n.entries)) [
    | inl missing ↦
        let full : length n.entries ≡ i =
          omega (arith, get-none i n.entries h.on_disk.numbered missing) in
        rw (store_entry, missing)
          (behind (sym (take-length i n.entries full)) (append-Stored i entry n h v fits full))
    | inr (existing, found) ↦ elim (Bool-cases (existing.term == entry.term)) [
      | inl agree ↦
          rw (store_entry, found, agree)
            (record {
              in_step = h;
              reaches = get-some i n.entries existing found;
              agrees = (existing, found, ==→eq existing.term entry.term agree);
              before = refl;
            })
      | inr differ ↦
          let (status, kept, in_step) = truncate_from-InStep (log_of n) h (i + 1) (omega arith) in
          let cut = put_log (truncate_from (i + 1) all_succeed (log_of n)).1 n in
          let back : i + 1 - 1 ≡ i = omega arith in
          let kept' : cut.entries ≡ take i n.entries = kept ∙ ap (λ k. take k n.entries) back in
          let short : length cut.entries ≡ i =
            ap length kept' ∙ omega (arith, length-take i n.entries) in
          rw (store_entry, found, differ)
            (behind kept' (append-Stored i entry cut in_step v fits short))
    ]
  ]

  -- The whole loop.
  pub record StoredAll (i : ℕ) (entries before : List LogEntry) (n : RaftNode) : Type 0 where
    pub in_step : InStep (log_of n)
    pub untouched : take i n.entries ≡ take i before
    pub reaches : i + length entries ≤ length n.entries
    pub agrees :
        (k : ℕ) (e : LogEntry) → get_elem? entries k ≡ some e → HasTerm (i + 1 + k) e.term n.entries

  each :
      (i : ℕ) (entry : LogEntry) (entries : List LogEntry) (n₁ n₂ : RaftNode)
      → HasTerm (i + 1) entry.term n₁.entries
      → take (i + 1) n₂.entries ≡ take (i + 1) n₁.entries
      → ((k : ℕ) (e : LogEntry)
          → get_elem? entries k ≡ some e
          → HasTerm (i + 1 + 1 + k) e.term n₂.entries)
      → (k : ℕ) (e : LogEntry) → get_elem? (entry ∷ entries) k ≡ some e
      → HasTerm (i + 1 + k) e.term n₂.entries
  each i entry entries n₁ n₂ first untouched rest zero e found =
      let at : i + 1 + 0 ≡ i + 1 = omega arith in
      let is : entry ≡ e = some_same found in
      rw at (
        subst (λ (x : LogEntry). HasTerm (i + 1) x.term n₂.entries) is
          (HasTerm-take (i + 1) entry.term n₂.entries n₁.entries untouched first))
  each i entry entries n₁ n₂ first untouched rest (suc k) e found =
      let at : i + 1 + suc k ≡ i + 1 + 1 + k = omega arith in rw at (rest k e found)

  pub store_entries-StoredAll :
      (i : ℕ) (entries : List LogEntry) (n : RaftNode)
      → InStep (log_of n)
      → All IsValidRecord entries
      → IsU64 (i + length entries)
      → i ≤ length n.entries
      → StoredAll i entries n.entries (store_entries io i entries n)
  unfolding store_entries
  store_entries-StoredAll i [] n h v fits there = record {
    in_step = h;
    untouched = refl;
    reaches = omega arith;
    agrees = λ k e found. absurd (ground (arith, found));
  }
  store_entries-StoredAll i (entry ∷ entries) n h v fits there =
      let first = store_entry-Stored i entry n h v.0 (omega arith) there in
      let n₁ = store_entry io (i + 1) entry n in
      let rest =
        store_entries-StoredAll (i + 1) entries n₁ first.in_step v.1 (omega arith) first.reaches in
      let n₂ = store_entries io (i + 1) entries n₁ in
      record {
        in_step = rest.in_step;
        untouched = shorter i n₂.entries n₁.entries rest.untouched ∙ first.before;
        reaches = omega (arith, rest.reaches);
        agrees = λ k e found.
            each i entry entries n₁ n₂ first.agrees rest.untouched rest.agrees k e found;
      }
