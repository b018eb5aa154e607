-- ===== src/Service.antt =====
-- The gRPC services of pacinet-server/src/service.rs, on `MemoryStorage`. A handler is a function of the
-- request and of the state; metrics and log lines are left out, and so are the conversions of times
-- into `prost_types::Timestamp` and the envelopes `Request` and `Response`. Each call of the storage is one
-- step of a handler, which runs here without another handler between its steps.
pub mod Agents
pub mod Nodes
pub mod Deploys
pub mod Rollback
pub mod Machines
pub mod Logs
use pacinet.Prelude.{String, ◌==◌, Option, none, some, Result, ok, err, if◌then◌else◌}
use pacinet.Error.{PaciNetError, StatusCode, status_code}
use pacinet.Storage.State.{Answer}

-- `tonic::Status`
pub record Status : Type 0 where
  pub code : StatusCode
  pub message : String

abbrev pub Reply : Type 0 → Type 0
Reply A = Result A Status

-- `From<PaciNetError> for Status`; the text of an error is an argument.
unfoldable pub status_of : (PaciNetError → String) → PaciNetError → Status
status_of error_text e = record { code = status_code e; message = error_text e }

-- `blocking(…).await?`, without the failure of a task that panics.
unfoldable pub blocking : {A : Type 0} → (PaciNetError → String) → Answer A → Reply A
unfolding status_of
blocking error_text (ok a) = ok a
blocking error_text (err e) = err (status_of error_text e)

-- `Status::not_found(message)` for what is not there.
abbrev pub or_not_found : {A : Type 0} → String → Option A → Reply A
or_not_found message none = err (record { code = StatusCode.not_found; message = message })
or_not_found message (some a) = ok a

-- `.await.ok().flatten()`
abbrev pub ok_or_none : {A : Type 0} → Answer (Option A) → Option A
ok_or_none (ok a) = a
ok_or_none (err e) = none

-- An empty field of a request stands for one that is not there.
abbrev pub unless_empty : String → Option String
unless_empty s = if s == "" then none else some s

-- `s` with the text as its answer when it is there, and the empty text otherwise.
abbrev pub or_default : Option String → String
or_default none = ""
or_default (some s) = s
