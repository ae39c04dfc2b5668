-- ===== src/Shutdown/Runner.antt =====
-- crates/caly-application/src/runtime/shutdown_runner.rs: every phase is attempted in order, and the
-- failures are kept.
pub mod Laws
use caly.Base.{
  ℕ, zero, suc, ◌+◌, ◌≤◌, ◌<◌, ◌≡◌, refl, sym, ap, ◌∙◌, inl, inr, true, false, Option, none, some,
  List, [], ◌∷◌, ◌++◌, length, length-append, ◌==◌, if◌then◌else◌, arith,
}
use caly.Base.Result.{Result, ok, err}
use caly.Domain.Text.{Text, codes, len_bytes, from_nonempty_clamped}
use caly.Shutdown.{
  ShutdownPhase, reject_transport_mutations, close_command_ingress, stop_telemetry,
  stop_and_reap_core, restore_platform, stop_subscriptions, finish_config_transactions,
  flush_event_sequencer, stop_projector, release_transport_and_lock, completed, next, is_completed,
  ShutdownDriver, new_driver, complete_current, all_phases, phases_from, phase_cases,
}
use mathlib.Core.List.{append_assoc, append-nil}

abbrev pub max_shutdown_failures : ℕ
max_shutdown_failures = 12

pub record ShutdownFailure : Type 0 where
  pub phase : ShutdownPhase
  pub message : Text

pub data ShutdownRunError : Type 0 where
  failure_capacity driver_completed_early : ShutdownRunError

-- An action of the resource owners on their state. Its answer is missing where it is still running
-- when the timeout ends it.
abbrev pub Action : Type 0 → Type 0
Action S = S → S × Option (Result Text (Unit {0}))

pub record ShutdownActions (S : Type 0) : Type 0 where
  pub on_reject_transport_mutations : Action S
  pub on_close_command_ingress : Action S
  pub on_stop_telemetry : Action S
  pub on_stop_and_reap_core : Action S
  pub on_restore_platform : Action S
  pub on_stop_subscriptions : Action S
  pub on_finish_config_transactions : Action S
  pub on_flush_event_sequencer : Action S
  pub on_stop_projector : Action S
  pub on_release_transport_and_lock : Action S

-- The derived `Debug` of a phase.
abbrev pub phase_name : ShutdownPhase → Text
phase_name reject_transport_mutations = codes "RejectTransportMutations"
phase_name close_command_ingress = codes "CloseCommandIngress"
phase_name stop_telemetry = codes "StopTelemetry"
phase_name stop_and_reap_core = codes "StopAndReapCore"
phase_name restore_platform = codes "RestorePlatform"
phase_name stop_subscriptions = codes "StopSubscriptions"
phase_name finish_config_transactions = codes "FinishConfigTransactions"
phase_name flush_event_sequencer = codes "FlushEventSequencer"
phase_name stop_projector = codes "StopProjector"
phase_name release_transport_and_lock = codes "ReleaseTransportAndLock"
phase_name completed = codes "Completed"

-- What the timed-out action of a phase is reported by; `shown` is the `Debug` text of the timeout.
abbrev pub timeout_text : Text → ShutdownPhase → Text
timeout_text shown phase =
    codes "shutdown phase " ++ (phase_name phase ++ (codes " exceeded " ++ shown))

-- `timeout_failure`, as `from_nonempty_clamped` makes its text.
unfoldable pub timeout_failure : Text → ShutdownPhase → Option Text
unfolding from_nonempty_clamped
timeout_failure shown phase =
    from_nonempty_clamped 512 (timeout_text shown phase) (codes "shutdown phase exceeded")

-- A failure joins the list, as `BoundedVec::try_push` admits it.
abbrev pub noted :
    List ShutdownFailure
    → ShutdownPhase
    → Result Text (Unit {0})
    → Result ShutdownRunError (List ShutdownFailure)
noted failures phase (ok _) = ok failures
noted failures phase (err message) =
    if length failures == max_shutdown_failures
    then err failure_capacity
    else ok (failures ++ record { phase = phase; message = message } ∷ [])

module _ {S : Type 0} (actions : ShutdownActions S) (shown : Text) where
  abbrev pub action : ShutdownPhase → Action S
  action reject_transport_mutations = actions.on_reject_transport_mutations
  action close_command_ingress = actions.on_close_command_ingress
  action stop_telemetry = actions.on_stop_telemetry
  action stop_and_reap_core = actions.on_stop_and_reap_core
  action restore_platform = actions.on_restore_platform
  action stop_subscriptions = actions.on_stop_subscriptions
  action finish_config_transactions = actions.on_finish_config_transactions
  action flush_event_sequencer = actions.on_flush_event_sequencer
  action stop_projector = actions.on_stop_projector
  action release_transport_and_lock = actions.on_release_transport_and_lock
  action completed = λ s. (s, some (ok tt))

  abbrev pub timed :
      ShutdownPhase → S × Option (Result Text (Unit {0})) → Option (S × Result Text (Unit {0}))
  timed phase (s, some answer) = some (s, answer)
  timed phase (s, none) = elim (timeout_failure shown phase) [
    | none ↦ none
    | some message ↦ some (s, err message)
  ]

  -- `execute_phase`; `none` is a panic of the text clamp.
  unfoldable pub execute_phase : ShutdownPhase → S → Option (S × Result Text (Unit {0}))
  execute_phase phase s = timed phase (action phase s)

  -- The loop of `run_shutdown_with_timeout`, on fuel; `none` is fuel that ran out or a panic.
  unfoldable pub run_loop :
      ℕ
      → ShutdownDriver
      → List ShutdownFailure
      → S
      → Option (S × Result ShutdownRunError (List ShutdownFailure))
  run_loop zero driver failures s = none
  run_loop (suc fuel) driver failures s = elim (is_completed driver.current) [
    | true ↦ some (s, ok failures)
    | false ↦ elim (execute_phase driver.current s) [
      | none ↦ none
      | some (s', answer) ↦ elim (noted failures driver.current answer) [
        | err e ↦ some (s', err e)
        | ok failures' ↦
            let (driver', moved) = complete_current driver in
            elim moved [
              | err _ ↦ some (s', err driver_completed_early)
              | ok _ ↦ run_loop fuel driver' failures' s'
            ]
      ]
    ]
  ]

  -- `run_shutdown`: ten phases, and the test that ends the loop.
  unfoldable pub run_shutdown : S → Option (S × Result ShutdownRunError (List ShutdownFailure))
  run_shutdown s = run_loop 11 new_driver [] s
