-- ===== src/Application/Reporting.antt =====
-- crates/caly-application/src/actors/reporting.rs and actor_result.rs, with
-- crates/caly-ports/src/error.rs: failures that cross an actor's boundary, and the terminal reports
-- that every owner's handler sends. `none` stands for a panic of `String::truncate`.
pub mod Clamped
use caly.Base.{ℕ, Option, none, some, List, [], ◌++◌, length, ltb, if◌then◌else◌}
use caly.Base.Result.{Result, ok, err, map_err, ◌>>=◌}
use caly.Base.Channel.{Channel}
use caly.Domain.Text.{Text, codes, from_nonempty_clamped}
use caly.Domain.Operation.{
  OperationFailure, OperationFailureCode, invalid_input, conflict, resource_exhausted,
  deadline_exceeded, infrastructure, recovery_required,
}
use caly.Domain.State.{PresentationDelta}
use caly.Application.Routing.{MailboxSendError, mailbox_full, mailbox_closed, send}
use mathlib.Core.Option

pub data ActorFailureKind : Type 0 where
  invalid_candidate unsupported_kind exhausted deadline infrastructure_kind : ActorFailureKind
  generation_conflict needs_recovery : ActorFailureKind

pub record ActorFailure : Type 0 where
  pub kind : ActorFailureKind
  pub message : Text
  pub suggested_action : Text

-- The bound of `FailureMessage`.
abbrev pub failure_message_bytes : ℕ
failure_message_bytes = 512

abbrev pub failure_of : ActorFailureKind → Option Text → Option Text → Option ActorFailure
failure_of kind (some message) (some action) =
    some (record { kind = kind; message = message; suggested_action = action })
failure_of kind _ _ = none

-- `ActorFailure::clamped`.
unfoldable pub clamped : ActorFailureKind → Text → Text → Option ActorFailure
clamped kind message action =
    failure_of kind (from_nonempty_clamped failure_message_bytes message (codes "_"))
      (from_nonempty_clamped failure_message_bytes action (codes "_"))

-- `ActorFailure::infrastructure`.
unfoldable pub infrastructure_failure : Text → Text → Option ActorFailure
infrastructure_failure message action =
    failure_of infrastructure_kind
      (from_nonempty_clamped failure_message_bytes message (codes "operation failed"))
      (from_nonempty_clamped failure_message_bytes action (codes "inspect configuration"))

-- The `Display` of a failure.
abbrev pub display : ActorFailure → Text
display f = f.message ++ codes " (" ++ f.suggested_action ++ codes ")"

abbrev pub max_result_deltas : ℕ
max_result_deltas = 16

pub data ActorReport : Type 0 where
  completed : (operation : ℕ) (deltas : List PresentationDelta) → ActorReport
  failed :
      (operation : ℕ) (failure : OperationFailure) (deltas : List PresentationDelta) → ActorReport
  crashed recovered observed : (deltas : List PresentationDelta) → ActorReport

-- `ActorReport::operation_id`.
abbrev pub report_operation : ActorReport → Option ℕ
report_operation (completed operation _) = some operation
report_operation (failed operation _ _) = some operation
report_operation _ = none

pub data ActorResultSendError : Type 0 where
  result_full result_closed : ActorReport → ActorResultSendError

abbrev pub send_error : MailboxSendError ActorReport → ActorResultSendError
send_error (mailbox_full value) = result_full value
send_error (mailbox_closed value) = result_closed value

abbrev pub try_report :
    Channel ActorReport → ActorReport → Channel ActorReport × Result ActorResultSendError (Unit {0})
try_report results report =
    let (results', sent) = send results report in (results', map_err send_error sent)

pub data HandlerReportError : Type 0 where
  delta_capacity : HandlerReportError
  result_mailbox : ActorResultSendError → HandlerReportError

abbrev pub bounded_deltas :
    List PresentationDelta → Result HandlerReportError (List PresentationDelta)
bounded_deltas deltas =
    if ltb max_result_deltas (length deltas) then err delta_capacity else ok deltas

abbrev pub failure_code : ActorFailureKind → OperationFailureCode
failure_code invalid_candidate = invalid_input
failure_code unsupported_kind = OperationFailureCode.unsupported
failure_code exhausted = resource_exhausted
failure_code deadline = deadline_exceeded
failure_code infrastructure_kind = infrastructure
failure_code generation_conflict = conflict
failure_code needs_recovery = recovery_required

abbrev pub operation_failure_of :
    OperationFailureCode → Option Text → Option Text → Option OperationFailure
operation_failure_of code (some message) (some action) =
    some (record { code = code; message = message; suggested_action = action })
operation_failure_of code _ _ = none

-- `operation_failure`, with the clamps of `OperationFailure::clamped`.
unfoldable pub operation_failure : ActorFailure → Option OperationFailure
operation_failure value =
    operation_failure_of (failure_code value.kind)
      (from_nonempty_clamped 1024 value.message (codes "_"))
      (from_nonempty_clamped 512 value.suggested_action (codes "_"))

abbrev pub Reported : Type 0
Reported = Channel ActorReport × Result HandlerReportError (Unit {0})

-- Hands a report to the results' mailbox.
abbrev pub submit : Channel ActorReport → ActorReport → Reported
submit results report =
    let (results', sent) = try_report results report in (results', map_err result_mailbox sent)

abbrev pub completed_with :
    Channel ActorReport → ℕ → Result HandlerReportError (List PresentationDelta) → Reported
completed_with results operation (err e) = (results, err e)
completed_with results operation (ok deltas) = submit results (completed operation deltas)

unfoldable pub report_completed : Channel ActorReport → ℕ → List PresentationDelta → Reported
report_completed results operation deltas = completed_with results operation (bounded_deltas deltas)

abbrev pub failed_with :
    Channel ActorReport
    → ℕ
    → Result HandlerReportError (List PresentationDelta)
    → Option OperationFailure
    → Option Reported
failed_with results operation (err e) failure = some (results, err e)
failed_with results operation (ok deltas) failure =
    Option.map (λ f. submit results (failed operation f deltas)) failure

unfoldable pub report_failed :
    Channel ActorReport → ℕ → ActorFailure → List PresentationDelta → Option Reported
report_failed results operation failure deltas =
    failed_with results operation (bounded_deltas deltas) (operation_failure failure)

unfoldable pub report_outcome :
    Channel ActorReport → ℕ → Result ActorFailure (List PresentationDelta) → Option Reported
report_outcome results operation (ok deltas) = some (report_completed results operation deltas)
report_outcome results operation (err failure) = report_failed results operation failure []

pub data ActorDirective : Type 0 where
  continue stop : ActorDirective

unfoldable pub finish_report :
    Channel ActorReport
    → ℕ
    → Result ActorFailure (List PresentationDelta)
    → Option (Channel ActorReport × Result HandlerReportError ActorDirective)
finish_report results operation outcome =
    Option.map (λ reported. (reported.0, reported.1 >>= λ _. ok continue))
      (report_outcome results operation outcome)
