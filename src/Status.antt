-- ===== src/Status.antt =====
-- common/status.h and common/status.cpp: the outcome of an operation that can fail.
use neural_kv.Prelude.{String, Bool, true, false}

pub data ErrorCode : Type 0 where
  ok not_found invalid_argument io_error internal : ErrorCode

pub record Status : Type 0 where
  pub code : ErrorCode
  pub message : String

-- Status::Ok()
abbrev pub okay : Status
okay = record { code = ErrorCode.ok; message = "" }

-- Status::Error(code, message)
abbrev pub error : ErrorCode → String → Status
error c m = record { code = c; message = m }

-- Status::ok()
abbrev pub is_ok : Status → Bool
is_ok s = elim s.code [ ErrorCode.ok ↦ true | _ ↦ false ]
