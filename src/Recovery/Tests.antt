-- ===== src/Recovery/Tests.antt =====
-- A crash with two failed restarts, and a boot after a crash whose last write is not durable.
use caly.Base.{ℕ, ◌≡◌, refl, Option, none, some, List, [], ◌∷◌, leb→le, ltb→lt, if◌then◌else◌, ◌==◌}
use caly.Base.Result.{Result, ok, err}
use caly.Domain.Text.{Text, codes}
use caly.Domain.State.{AppliedState, ObservedState, mihomo, running, crashed}
use caly.Application.Reporting.{ActorReport}
use caly.Application.Reporting
use caly.Recovery.CrashLoop.{
  with_bounds, goes_on, observation, min, grow, on_crash, on_restart_failed, on_stable_tick,
}
use caly.Recovery.CrashLoop.Backoff.{
  PolicyEvent, crashes, restart_fails, ticks, handle_all, count_all, fresh, doubled,
  handle_all-backoff,
}
use caly.Recovery.CrashLoop.Waits.{run, exit_seen, retries, watching, restored, backoffs, run-crash}
use caly.Recovery.AtomicWrite.{Disk, Faults}
use caly.Recovery.RestoreFirst.{RecoveryRecord, RecoveryPhase, prepared, applied, restoring, Boot}
use caly.Recovery.RestoreFirst.Laws.{no_faults}

abbrev history : List PolicyEvent
history = crashes ∷ restart_fails ∷ ticks 500 ∷ crashes ∷ restart_fails ∷ []

handle_all-backoff_example :
    (handle_all (with_bounds 1000 30000) history).backoff_ms
    ≡ min (doubled 1000 (count_all fresh history).setbacks) 30000
handle_all-backoff_example =
    handle_all-backoff 1000 30000 history (leb→le 1000 30000 refl) (leb→le 30000 _ refl)

-- Three setbacks, so eight seconds.
eight_seconds : (handle_all (with_bounds 1000 30000) history).backoff_ms ≡ 8000
unfolding handle_all with_bounds on_crash on_restart_failed on_stable_tick grow
eight_seconds = refl

abbrev up : AppliedState
up = record {
  core = some mihomo;
  run_state = running;
  selected_node = none;
  config_generation = some 3;
}

abbrev down : AppliedState
down = record up { run_state = crashed }

abbrev quiet : ObservedState
quiet = record {
  upload_bytes_per_second = 0;
  download_bytes_per_second = 0;
  active_connections = 0;
  telemetry_dropped = 0;
  core_restart_count = 0;
  core_restart_backoff_ms = 0;
}

run-crash_example : run (watching 1000 3000 quiet 4 8 []) (exit_seen down ∷ retries 2 up) ≡ record {
  monitor =
      restored 1000 3000 quiet 4 8 2
        (caly.Application.Reporting.crashed (observation down quiet) ∷ [])
        up;
  slept = backoffs 1000 3000 0 2;
  next = goes_on;
}
run-crash_example =
    run-crash 1000 3000 quiet 4 8 2 [] down up (leb→le 1000 3000 refl) (leb→le 3000 _ refl)
      (ltb→lt 1 8 refl)

waits : backoffs 1000 3000 0 2 ≡ 1000 ∷ 2000 ∷ 3000 ∷ []
waits = refl

-- A codec in three numbers.
abbrev phase_code : RecoveryPhase → ℕ
phase_code prepared = 0
phase_code applied = 1
phase_code restoring = 2

abbrev phase_of : ℕ → RecoveryPhase
phase_of n = if n == 0 then prepared else (if n == 1 then applied else restoring)

abbrev to_vec : RecoveryRecord ℕ → Result Text (List ℕ)
to_vec r = ok (r.owner_token ∷ phase_code r.phase ∷ r.parameters ∷ [])

abbrev from_slice : List ℕ → Option (RecoveryRecord ℕ)
from_slice (t ∷ p ∷ n ∷ []) = some (record { owner_token = t; phase = phase_of p; parameters = n })
from_slice _ = none

abbrev bytes_or : List ℕ → Result Text (List ℕ) → List ℕ
bytes_or bs (ok cs) = cs
bytes_or bs (err _) = bs

abbrev pending : RecoveryRecord ℕ
pending = record { owner_token = 5; phase = applied; parameters = 7890 }

abbrev disk : Disk
disk = record { destination = some (5 ∷ 1 ∷ 7890 ∷ []); temporary = none }

abbrev durable : Faults
durable = record {
  create = none;
  write = none;
  torn = [];
  sync = none;
  replace = none;
  sync_parent = none;
  remove = none;
}

abbrev boot : Boot ℕ
boot = record {
  store = no_faults;
  marking = durable;
  restore = λ r. none;
  reapplying = record durable { sync_parent = some (codes "input/output error") };
  current_token = 6;
}
