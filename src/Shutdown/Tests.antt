-- ===== src/Shutdown/Tests.antt =====
-- Runs of the shutdown on concrete inputs.
use caly.Base.{true, ℕ, suc, ◌≡◌, none, some, [], ◌∷◌, arith}
use caly.Base.Result.{ok, err}
use caly.Domain.Text.{codes}
use caly.Shutdown.{stop_telemetry, restore_platform, new_driver}
use caly.Shutdown.Runner.{Action, ShutdownActions, run_shutdown, timeout_text}
use caly.Shutdown.Runner.Laws.{run_shutdown-attempted}
use caly.Shutdown.Fatal.{
  projection, task_join, record_all, new_guard, first_fault, additional_fault, record_all-first,
}

abbrev succeeds : Action ℕ
succeeds n = (suc n, some (ok tt))

abbrev actions : ShutdownActions ℕ
actions = record {
  on_reject_transport_mutations = succeeds;
  on_close_command_ingress = succeeds;
  on_stop_telemetry = λ n. (n, some (err (codes "stuck")));
  on_stop_and_reap_core = succeeds;
  on_restore_platform = λ n. (suc n, none);
  on_stop_subscriptions = succeeds;
  on_finish_config_transactions = succeeds;
  on_flush_event_sequencer = succeeds;
  on_stop_projector = succeeds;
  on_release_transport_and_lock = succeeds;
}

-- A phase that fails and a phase that times out, among ten.
run_shutdown-attempted_example :
    run_shutdown actions (codes "10s") 0
    ≡ some (
      9,
      ok (
          record { phase = stop_telemetry; message = codes "stuck" }
          ∷ record {
            phase = restore_platform;
            message = timeout_text (codes "10s") restore_platform;
          }
          ∷ []),
    )
run_shutdown-attempted_example = run_shutdown-attempted actions (codes "10s") 0 (omega arith)

record_all-first_example : record_all new_guard (projection ∷ task_join ∷ []) ≡ (
  record {
    cancelled = true;
    shutdown = new_driver;
    first = some projection;
    fault_count = 2;
    fatal_signal = some projection;
  },
  first_fault ∷ additional_fault 2 ∷ [],
)
record_all-first_example = record_all-first projection (task_join ∷ [])
