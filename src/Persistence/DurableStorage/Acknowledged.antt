-- ===== src/Persistence/DurableStorage/Acknowledged.antt =====
-- A Set or Delete with no other thread about: what it returns, and that an acknowledged one survives.
use neural_kv.Prelude.{
  ℕ, zero, suc, foldl, ◌+◌, ◌≤◌, ◌≡◌, refl, sym, ap, ◌∙◌, subst, false, List, [], ◌∷◌, ◌++◌, none,
  some, arith, length, eqb, if◌then◌else◌, length-append, take,
}
use neural_kv.Status.{okay}
use neural_kv.Result.{ok}
use neural_kv.Storage.Dict.{find}
use neural_kv.Storage.ShardedKv
use neural_kv.Storage.ShardedKv.{ShardedKv}
use neural_kv.Storage.ShardedKv.View.{IsWellFormed, view, empty-IsWellFormed}
use neural_kv.Persistence.WalRecord.{WalRecord, WalOp, IsValidRecord}
use neural_kv.Persistence.WalWriter.{
  WalWriter, written, SysOutcome, succeeds, append, sync, lead_flush,
}
use neural_kv.Persistence.WalWriter.Invariant.{Holds, append-Holds}
use neural_kv.Persistence.WalWriter.GroupCommit.{flushed-Holds}
use neural_kv.Persistence.WalWriter.Crash.{crash_recovery}
use neural_kv.Persistence.Recovery.{apply_op, apply_record, recover_from_wal, present}
use neural_kv.Persistence.Recovery.View.{
  spec_replay, spec_replay-append, apply_op-IsWellFormed, view-apply_op, replay-view, replay-last,
}
use neural_kv.Persistence.DurableStorage.{
  DurableStorage, Around, returned, log_and_apply, op_status, set,
}

-- No other thread is about; the write succeeds, and the fsync does what is said.
abbrev pub alone : SysOutcome → WalWriter → Around
alone flush wake = record {
  write = written;
  wake = wake;
  ticks = [];
  flush = flush;
  meanwhile = λ p. p;
}

-- All that was logged has been applied.
module _ (hash : List ℕ → ℕ) where
  pub record Ready (d : DurableStorage) (rs : List WalRecord) : Type 0 where
    pub log : Holds d.wal rs
    pub idle : d.wal.flush_in_progress ≡ false
    pub map_formed : IsWellFormed d.kv
    pub applied : d.last_applied_index ≡ length rs
    pub shows : (j : List ℕ) → view hash d.kv j ≡ spec_replay rs (λ _. none) j

-- The record that a write logs behind `rs`.
abbrev pub logged : List WalRecord → WalOp → List ℕ → List ℕ → WalRecord
logged rs op key value = record {
  term = 0;
  index = length rs + 1;
  op = op;
  key = key;
  value = value;
}

-- The record as Set and Delete build it, before the log numbers it.
abbrev entry : WalOp → List ℕ → List ℕ → WalRecord
entry op key value = record { term = 0; index = 0; op = op; key = key; value = value }

module _ (hash : List ℕ → ℕ) (d : DurableStorage) (rs : List WalRecord) (ready : Ready hash d rs)
    (op : WalOp) (key value : List ℕ) (v : IsValidRecord (logged rs op key value))
    (wake : WalWriter) where
  abbrev appended : WalWriter
  appended = (append (entry op key value) written d.wal).1

  abbrev flushed : WalWriter
  flushed = record appended {
    durable = length appended.file;
    fsync_count = appended.fsync_count + 1;
    synced_index = appended.last_index;
    flush_in_progress = false;
  }

  abbrev after : DurableStorage
  after = record {
    kv = apply_op hash op key value d.kv;
    wal = flushed;
    last_applied_index = length rs + 1;
  }

  append_is :
      ((append (entry op key value) written d.wal).0 ≡ ok (length rs + 1))
      × Holds appended (rs ++ (logged rs op key value ∷ []))
  append_is =
      subst
        (λ n.
          IsValidRecord (record (entry op key value) { index = n })
          → ((append (entry op key value) written d.wal).0 ≡ ok (length rs + 1))
            × Holds appended (rs ++ (record (entry op key value) { index = n } ∷ [])))
        (ap (λ n. n + 1) ready.log.last_is) (append-Holds d.wal rs ready.log (entry op key value)) v

  sync_is : sync (length rs + 1) wake [] succeeds appended ≡ (okay, flushed)
  unfolding sync lead_flush append
  sync_is = ground (arith, ready.log.is_open, ready.log.last_is, ready.log.synced_le, ready.idle)

  log_and_apply_is :
      log_and_apply hash op key value (alone succeeds wake) d
      ≡ returned (op_status hash op key value d.kv) after
  unfolding log_and_apply
  log_and_apply_is = ground (arith, append_is.0, sync_is, ready.applied)

  after-Ready : Ready hash after (rs ++ (logged rs op key value ∷ []))
  after-Ready = record {
    log =
        flushed-Holds appended (rs ++ (logged rs op key value ∷ [])) (appended.fsync_count + 1)
          append_is.1;
    idle = refl;
    map_formed = apply_op-IsWellFormed hash op key value d.kv ready.map_formed;
    applied = omega (arith, length-append rs (logged rs op key value ∷ []));
    shows = λ j.
        view-apply_op hash op key value d.kv (spec_replay rs (λ _. none)) ready.map_formed
          v.key_there ready.shows j
        ∙ ap (λ m. m j) (sym (spec_replay-append rs (logged rs op key value) (λ _. none)));
  }

  -- A Set or Delete whose write and fsync succeed returns the status of the map's operation, and
  -- leaves a storage whose log has the one record more, whose map shows the log, and whose log is
  -- synced to its end.
  pub log_and_apply-Ready :
      (d' : DurableStorage) × (log_and_apply hash op key value (alone succeeds wake) d
        ≡ returned (op_status hash op key value d.kv) d')
      × Ready hash d' (rs ++ (logged rs op key value ∷ []))
      × (d'.wal.synced_index ≡ length rs + 1)
  log_and_apply-Ready = (
    after,
    log_and_apply_is,
    after-Ready,
    after-Ready.log.last_is ∙ omega (arith, length-append rs (logged rs op key value ∷ [])),
  )

take_all {ℓ} : {A : Type ℓ} (n : ℕ) (xs : List A) → length xs ≤ n → take n xs ≡ xs
take_all zero [] h = refl
take_all zero (x ∷ xs) h = absurd (omega arith)
take_all (suc n) [] h = refl
take_all (suc n) (x ∷ xs) h = ap (λ l. x ∷ l) (take_all n xs (omega arith))

-- Of a storage whose log is synced to its end, whatever a crash leaves of the file: recovery returns Ok
-- with a map that shows the same value for every key, and with the same last applied index.
pub crash-view :
    (hash : List ℕ → ℕ) (d : DurableStorage) (rs : List WalRecord) (k : ℕ)
    → Ready hash d rs
    → d.wal.synced_index ≡ length rs
    → d.wal.durable ≤ k
    → (kv : ShardedKv) × (recover_from_wal hash (present (take k d.wal.file)) ShardedKv.empty
        ≡ some ((kv, d.last_applied_index), okay))
      × ((j : List ℕ) → view hash kv j ≡ view hash d.kv j)
unfolding recover_from_wal
crash-view hash d rs k ready synced enough =
    let (kept, all, scanned) =
      crash_recovery (apply_record hash) (ShardedKv.empty, 0) d.wal rs k ready.log enough in
    let whole : take kept rs ≡ rs = take_all kept rs (omega arith) in
    let replayed = foldl (apply_record hash) (ShardedKv.empty, 0) rs in
    let shown =
      replay-view hash rs ShardedKv.empty 0 (λ _. none) ready.log.valid empty-IsWellFormed
        (unfold view find in λ j. refl) in
    let last : replayed.1 ≡ d.last_applied_index =
      omega (arith, replay-last hash rs ShardedKv.empty 0 ready.log.numbered, ready.applied) in
    (
      replayed.0,
      scanned
          ∙ ap (λ l. some (foldl (apply_record hash) (ShardedKv.empty, 0) l, okay)) whole
          ∙ ap (λ n. some ((replayed.0, n), okay)) last,
      λ j. shown.1 j ∙ sym (ready.shows j),
    )

-- Of a storage that has applied all that its log holds, with no other thread about, a write and an
-- fsync that succeed, and a key and value of a valid record: Set returns Ok, and whatever a crash
-- leaves of the log file behind the durable bytes, recovery returns Ok and shows the value that was
-- set, and for every other key what the map showed before the Set.
pub set_survives_crash :
    (hash : List ℕ → ℕ) (d : DurableStorage) (rs : List WalRecord) (key value : List ℕ)
    (wake : WalWriter)
    → Ready hash d rs
    → IsValidRecord (logged rs WalOp.set key value)
    → (d' : DurableStorage) × (set hash key value (alone succeeds wake) d ≡ returned okay d')
      × ((k : ℕ)
          → d'.wal.durable ≤ k
          → (kv : ShardedKv) × (recover_from_wal hash (present (take k d'.wal.file)) ShardedKv.empty
              ≡ some ((kv, length rs + 1), okay))
            × ((j : List ℕ)
                → view hash kv j ≡ (if eqb key j then some value else view hash d.kv j)))
unfolding set
set_survives_crash hash d rs key value wake ready v =
    let r = logged rs WalOp.set key value in
    let (d', ran, ready', synced) =
      log_and_apply-Ready hash d rs ready WalOp.set key value v wake in
    let all = length-append rs (r ∷ []) in
    (
      d',
      rw (v.key_there, v.value_there refl)
          (ran ∙ ap (λ s. returned s d') (unfold ShardedKv.set in ground (arith, v.key_there))),
      λ k enough.
          let (kv, scanned, shown) =
            crash-view hash d' (rs ++ (r ∷ [])) k ready' (omega arith) enough in
          (
            kv,
            scanned ∙ ap (λ n. some ((kv, n), okay)) (omega (arith, ready'.applied)),
            λ j. ground (
              arith,
              shown j,
              ready'.shows j,
              ap (λ m. m j) (spec_replay-append rs r (λ _. none)),
              ready.shows j,
            ),
          ),
    )
