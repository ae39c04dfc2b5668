-- ===== src/Recovery/CrashLoop.antt =====
-- crates/caly-composition/src/recovery.rs: the crash-loop policy, and the monitor that restarts a
-- crashed core with it.
pub mod Backoff
pub mod Waits
use caly.Base.{
  ℕ, zero, suc, ◌+◌, ◌*◌, ◌-◌, ◌^◌, Bool, true, false, not, Option, none, some, List, [], ◌∷◌, ◌++◌,
  ltb, leb, if◌then◌else◌,
}
use caly.Base.Result.{Result, ok, err}
use caly.Base.Channel.{Channel}
use caly.Domain.State.{
  AppliedState, ObservedState, PresentationDelta, observed_replaced, applied_replaced,
}
use caly.Application.Reporting.{ActorReport, ActorResultSendError, crashed, recovered, try_report}

abbrev pub stabilize_window_ms : ℕ
stabilize_window_ms = 5000

abbrev pub poll_interval_ms : ℕ
poll_interval_ms = 500

abbrev pub u64_max : ℕ
u64_max = 2 ^ 64 - 1

abbrev pub min : ℕ → ℕ → ℕ
min a b = if ltb b a then b else a

abbrev pub saturated : ℕ → ℕ
saturated n = min n u64_max

pub record CrashLoopPolicy : Type 0 where
  pub initial_backoff_ms : ℕ
  pub max_backoff_ms : ℕ
  pub backoff_ms : ℕ
  pub consecutive_crashes : ℕ
  pub stable_ms : ℕ

unfoldable pub with_bounds : ℕ → ℕ → CrashLoopPolicy
with_bounds initial max = record {
  initial_backoff_ms = initial;
  max_backoff_ms = max;
  backoff_ms = initial;
  consecutive_crashes = 0;
  stable_ms = 0;
}

unfoldable pub grow : CrashLoopPolicy → CrashLoopPolicy
grow p = record p { backoff_ms = min (saturated (p.backoff_ms * 2)) p.max_backoff_ms }

unfoldable pub on_crash : CrashLoopPolicy → CrashLoopPolicy
on_crash p =
    let p' = record p {
      consecutive_crashes = saturated (p.consecutive_crashes + 1);
      stable_ms = 0;
    } in
    if ltb 1 p'.consecutive_crashes then grow p' else p'

unfoldable pub on_restart_failed : CrashLoopPolicy → CrashLoopPolicy
on_restart_failed p = grow (record p { stable_ms = 0 })

unfoldable pub on_stable_tick : CrashLoopPolicy → ℕ → CrashLoopPolicy × Bool
on_stable_tick p elapsed =
    if leb stabilize_window_ms p.stable_ms
    then (p, false)
    else (let stable = saturated (p.stable_ms + elapsed) in
        if leb stabilize_window_ms stable
        then (with_bounds p.initial_backoff_ms p.max_backoff_ms, true)
        else (record p { stable_ms = stable }, false))

unfoldable pub observe_restart : ObservedState → ℕ → ℕ → ObservedState
observe_restart observed restart_count backoff = record observed {
  core_restart_count = restart_count;
  core_restart_backoff_ms = backoff;
}

pub data MonitorFailure : Type 0 where
  polling_failed crash_mailbox_failed stable_mailbox_failed : MonitorFailure

-- The variables of the monitor's task, and the mailbox of reports.
pub record Monitor : Type 0 where
  pub policy : CrashLoopPolicy
  pub observed : ObservedState
  pub restart_count : ℕ
  pub pending_restart : Bool
  pub results : Channel ActorReport

-- What the monitor meets in one turn of its loop: a cancellation before the turn (which the head of
-- `restart_step` sees as well) and one during its sleep, what the poll for an abnormal exit answers, and the state of the core where a restart
-- succeeds.
pub record Turn : Type 0 where
  pub cancelled_before : Bool
  pub cancelled_after : Bool
  pub polled : Result (Unit {0}) (Option AppliedState)
  pub restarted : Option AppliedState

-- What a turn leaves: the monitor, the sleep in milliseconds, and how it goes on.
pub data Next : Type 0 where
  goes_on finished : Next
  fails : MonitorFailure → Next

pub record Turned : Type 0 where
  pub monitor : Monitor
  pub slept : List ℕ
  pub next : Next

abbrev pub next_of : MonitorFailure → Result ActorResultSendError (Unit {0}) → Next
next_of failure (ok _) = goes_on
next_of failure (err _) = fails failure

-- `report_observation`.
abbrev pub observation : AppliedState → ObservedState → List PresentationDelta
observation state observed = observed_replaced observed ∷ applied_replaced state ∷ []

-- A turn that hands in a report, with the sleep before it and the one after it. Where the report
-- cannot be sent the task ends, and its variables with it: a failure
-- skips the sleep behind it.
abbrev pub reporting : Monitor → List ℕ → List ℕ → MonitorFailure → ActorReport → Turned
reporting m before after failure report =
    let (results, sent) = try_report m.results report in
    record {
      monitor = record m { results = results };
      slept = elim sent [ ok _ ↦ before ++ after | err _ ↦ before ];
      next = next_of failure sent;
    }

-- `restart_step` behind its sleep.
abbrev pub restart_after : Monitor → List ℕ → Option AppliedState → Turned
restart_after m slept none = record {
  monitor = record m { policy = on_restart_failed m.policy; pending_restart = true };
  slept = slept;
  next = goes_on;
}
restart_after m slept (some running) =
    let count = saturated (m.restart_count + 1) in
    let observed = observe_restart m.observed count m.policy.backoff_ms in
    reporting (record m { observed = observed; restart_count = count; pending_restart = false })
      slept [] crash_mailbox_failed (recovered (observation running observed))

unfoldable pub restart_step : Monitor → Turn → Turned
restart_step m t =
    if t.cancelled_after
    then record {
      monitor = record m { pending_restart = false };
      slept = m.policy.backoff_ms ∷ [];
      next = goes_on;
    }
    else restart_after m (m.policy.backoff_ms ∷ []) t.restarted

-- The turn of a core that did not exit.
abbrev pub stable_turn : Monitor → CrashLoopPolicy × Bool → Turned
stable_turn m (policy, false) = record {
  monitor = record m { policy = policy };
  slept = poll_interval_ms ∷ [];
  next = goes_on;
}
stable_turn m (policy, true) =
    let observed = observe_restart m.observed m.restart_count 0 in
    reporting (record m { policy = policy; observed = observed }) [] (poll_interval_ms ∷ [])
      stable_mailbox_failed (recovered (observed_replaced observed ∷ []))

-- The crash that a poll found.
abbrev pub polled_turn : Monitor → Result (Unit {0}) (Option AppliedState) → Turned
polled_turn m (err _) = record { monitor = m; slept = []; next = fails polling_failed }
polled_turn m (ok none) = stable_turn m (on_stable_tick m.policy poll_interval_ms)
polled_turn m (ok (some state)) =
    reporting (record m { policy = on_crash m.policy; pending_restart = true }) [] []
      crash_mailbox_failed (crashed (observation state m.observed))

-- One turn of the `while` loop.
unfoldable pub turn : Monitor → Turn → Turned
turn m t =
    if t.cancelled_before
    then record { monitor = m; slept = []; next = finished }
    else (if m.pending_restart then restart_step m t else polled_turn m t.polled)
