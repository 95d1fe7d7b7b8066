-- ===== src/Persistence/DurableStorage.antt =====
-- persistence/durable_storage.h and .cpp: the map behind the log.
pub mod Acknowledged
pub mod FailedSync
use neural_kv.Prelude.{
  ℕ, ◌-◌, List, [], Option, none, some, not, ◌==◌, if◌then◌else◌, Bool, true, false, ◌+◌,
}
use neural_kv.Status.{Status, okay, is_ok}
use neural_kv.Result.{Result, ok, err}
use neural_kv.Protocol.{is_empty, invalid}
use neural_kv.Storage.ShardedKv
use neural_kv.Storage.ShardedKv.{ShardedKv}
use neural_kv.Persistence.WalRecord.{WalRecord, WalOp}
use neural_kv.Persistence.WalWriter.{
  WalWriter, WriteOutcome, SysOutcome, Tick, append, sync, open_or_create,
}
use neural_kv.Persistence.Recovery.{apply_op, recover_from_wal, present}

pub record DurableStorage : Type 0 where
  pub kv : ShardedKv
  pub wal : WalWriter
  pub last_applied_index : ℕ

-- What happens around one Set or Delete: the write and the fsync of the log, the writer when a wait
-- for another batch leader ends, what arrives while this thread leads, and what the other threads
-- have applied to the map by the time the wait for `last_applied_index_` is over or stuck.
pub record Around : Type 0 where
  pub write : WriteOutcome
  pub wake : WalWriter
  pub ticks : List Tick
  pub flush : SysOutcome
  pub meanwhile : ShardedKv × ℕ → ShardedKv × ℕ

-- A call returns, or waits for a turn that nobody gives it.
pub data Outcome : Type 0 where
  returned : Status → DurableStorage → Outcome
  blocked : DurableStorage → Outcome

module _ (hash : List ℕ → ℕ) where
  -- The constructor and Open, on a log file that the writer has created or found: `none` as in
  -- `scan_file`. With a log that cannot be replayed there is no storage.
  unfoldable pub open_storage : List ℕ → Option (Result DurableStorage)
  open_storage file = elim (open_or_create file) [
    | none ↦ none
    | some w ↦ elim (recover_from_wal hash (present file) ShardedKv.empty) [
      | none ↦ none
      | some ((kv, last), status) ↦
          if not (is_ok status)
          then some (err status)
          else some (ok (record { kv = kv; wal = w; last_applied_index = last }))
    ]
  ]

  -- The status of the map's own operation.
  abbrev pub op_status : WalOp → List ℕ → List ℕ → ShardedKv → Status
  op_status WalOp.set key value kv = (ShardedKv.set hash key value kv).0
  op_status WalOp.delete key value kv = (ShardedKv.delete hash key kv).0

  -- The wait for `last_applied_index_ == index - 1`, and the step that it guards.
  unfoldable pub apply_in_turn : WalOp → List ℕ → List ℕ → ℕ → Around → DurableStorage → Outcome
  apply_in_turn op key value index around d =
      let (kv, last) = around.meanwhile (d.kv, d.last_applied_index) in
      if last == index - 1
      then returned (op_status op key value kv)
          (record d { kv = apply_op hash op key value kv; last_applied_index = index })
      else blocked (record d { kv = kv; last_applied_index = last })

  -- Append, Sync and apply, which Set and Delete have in common.
  unfoldable pub log_and_apply : WalOp → List ℕ → List ℕ → Around → DurableStorage → Outcome
  unfolding apply_in_turn
  log_and_apply op key value around d =
      let r : WalRecord = record { term = 0; index = 0; op = op; key = key; value = value } in
      let (appended, w₁) = append r around.write d.wal in
      elim appended [
        | err status ↦ returned status (record d { wal = w₁ })
        | ok index ↦
            let (status, w₂) = sync index around.wake around.ticks around.flush w₁ in
            if not (is_ok status)
            then returned status (record d { wal = w₂ })
            else apply_in_turn op key value index around (record d { wal = w₂ })
      ]

  unfoldable pub set : List ℕ → List ℕ → Around → DurableStorage → Outcome
  set key value around d =
      if is_empty key
      then returned (invalid "key must not be empty") d
      else if is_empty value
      then returned (invalid "SET requires a non-empty value") d
      else log_and_apply WalOp.set key value around d

  unfoldable pub get : List ℕ → DurableStorage → Result (List ℕ)
  get key d = ShardedKv.get hash key d.kv

  unfoldable pub delete : List ℕ → Around → DurableStorage → Outcome
  delete key around d =
      if is_empty key
      then returned (invalid "key must not be empty") d
      else log_and_apply WalOp.delete key [] around d

  -- ApplyCommitted: the record is durable already.
  unfoldable pub apply_committed : WalRecord → DurableStorage → DurableStorage
  apply_committed r d = record d {
    kv = apply_op hash r.op r.key r.value d.kv;
    last_applied_index = r.index;
  }
