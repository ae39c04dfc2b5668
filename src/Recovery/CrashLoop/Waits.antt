-- ===== src/Recovery/CrashLoop/Waits.antt =====
-- What the monitor does from a crash to the restart that succeeds.
use caly.Base.{
  ℕ, zero, suc, ◌+◌, ◌≤◌, ◌<◌, ◌≡◌, ap, ◌∙◌, true, false, Option, none, some, List, [], ◌∷◌, ◌++◌,
  length, length-append, ltb, arith,
}
use caly.Base.Result.{ok}
use caly.Base.Channel.{Channel}
use caly.Domain.State.{AppliedState, ObservedState}
use caly.Application.Reporting.{ActorReport, crashed, recovered}
use caly.Recovery.CrashLoop.{
  Monitor, Turn, Turned, goes_on, finished, fails, CrashLoopPolicy, with_bounds, grow, on_crash,
  on_restart_failed, turn, restart_step, observation, observe_restart, min, saturated, u64_max,
}
use caly.Recovery.CrashLoop.Backoff.{doubled, grown}

-- A turn, and the rest of the loop behind it where it goes on.
abbrev pub followed : Turned → Turned → Turned
followed now rest = elim now.next [
  | goes_on ↦ record { monitor = rest.monitor; slept = now.slept ++ rest.slept; next = rest.next }
  | finished ↦ now
  | fails e ↦ now
]

-- The loop over the turns that come: where it ends by itself, the turns behind are not taken.
unfoldable pub run : Monitor → List Turn → Turned
run m [] = record { monitor = m; slept = []; next = goes_on }
run m (t ∷ ts) = let now = turn m t in followed now (run now.monitor ts)

run-goes_on :
    (m m' : Monitor) (t : Turn) (ts : List Turn) (slept : List ℕ)
    → turn m t ≡ record { monitor = m'; slept = slept; next = goes_on }
    → run m (t ∷ ts) ≡ record {
      monitor = (run m' ts).monitor;
      slept = slept ++ (run m' ts).slept;
      next = (run m' ts).next;
    }
unfolding run
run-goes_on m m' t ts slept e = ap (λ now. followed now (run now.monitor ts)) e

-- Turns without a cancellation: a poll that finds the core exited, and a restart that fails or
-- succeeds.
abbrev pub exit_seen : AppliedState → Turn
exit_seen state = record {
  cancelled_before = false;
  cancelled_after = false;
  polled = ok (some state);
  restarted = none;
}

abbrev pub tried : Option AppliedState → Turn
tried restarted = record {
  cancelled_before = false;
  cancelled_after = false;
  polled = ok none;
  restarted = restarted;
}

-- `n` restarts that fail, and one that succeeds.
abbrev pub retries : ℕ → AppliedState → List Turn
retries zero running = tried (some running) ∷ []
retries (suc n) running = tried none ∷ retries n running

-- The backoffs from the `k`-th doubling on, `n` and one more.
abbrev pub backoffs : ℕ → ℕ → ℕ → ℕ → List ℕ
backoffs initial max k zero = min (doubled initial k) max ∷ []
backoffs initial max k (suc n) = min (doubled initial k) max ∷ backoffs initial max (suc k) n

-- An open mailbox of reports.
abbrev pub mailbox : List ActorReport → ℕ → Channel ActorReport
mailbox queue capacity = record { queue = queue; capacity = capacity; is_open = true }

-- A policy behind `k` doublings, with its count of crashes.
abbrev pub grown_policy : ℕ → ℕ → ℕ → ℕ → CrashLoopPolicy
grown_policy initial max k crash_count = record {
  initial_backoff_ms = initial;
  max_backoff_ms = max;
  backoff_ms = min (doubled initial k) max;
  consecutive_crashes = crash_count;
  stable_ms = 0;
}

module _ (initial max : ℕ) (observed : ObservedState) (count capacity : ℕ) where
  -- The monitor behind a crash and `k` doublings, before and after the restart that succeeds.
  abbrev waiting : ℕ → List ActorReport → Monitor
  waiting k queue = record {
    policy = grown_policy initial max k 1;
    observed = observed;
    restart_count = count;
    pending_restart = true;
    results = mailbox queue capacity;
  }

  -- What the observation shows after the restart that succeeds behind `k` doublings.
  abbrev pub healed : ℕ → ObservedState
  healed k = observe_restart observed (saturated (count + 1)) (min (doubled initial k) max)

  abbrev pub restored : ℕ → List ActorReport → AppliedState → Monitor
  restored k queue running = record {
    policy = grown_policy initial max k 1;
    observed = healed k;
    restart_count = saturated (count + 1);
    pending_restart = false;
    results = mailbox (queue ++ recovered (observation running (healed k)) ∷ []) capacity;
  }

  turn-succeeds :
      (k : ℕ) (queue : List ActorReport) (running : AppliedState)
      → length queue < capacity
      → turn (waiting k queue) (tried (some running)) ≡ record {
        monitor = restored k queue running;
        slept = min (doubled initial k) max ∷ [];
        next = goes_on;
      }
  unfolding turn restart_step
  turn-succeeds k queue running h =
      let free : ltb (length queue) capacity ≡ true = ground arith in rw free

  turn-fails :
      (k : ℕ) (queue : List ActorReport)
      → max ≤ u64_max
      → turn (waiting k queue) (tried none) ≡ record {
        monitor = waiting (suc k) queue;
        slept = min (doubled initial k) max ∷ [];
        next = goes_on;
      }
  unfolding turn restart_step on_restart_failed grow
  turn-fails k queue u = rw (grown (doubled initial k) max u)

  run-retries :
      (k n : ℕ) (queue : List ActorReport) (running : AppliedState)
      → max ≤ u64_max
      → length queue < capacity
      → run (waiting k queue) (retries n running) ≡ record {
        monitor = restored (n + k) queue running;
        slept = backoffs initial max k n;
        next = goes_on;
      }
  unfolding run
  run-retries k zero queue running u h =
      let same : k ≡ 0 + k = omega arith in
      run-goes_on (waiting k queue) (restored k queue running) (tried (some running)) []
        (min (doubled initial k) max ∷ []) (turn-succeeds k queue running h)
      ∙ ap
          (λ j. record {
            monitor = restored j queue running;
            slept = backoffs initial max k 0;
            next = goes_on;
          })
          same
  run-retries k (suc n) queue running u h =
      let step : n + suc k ≡ suc n + k = omega arith in
      let rest = run-retries (suc k) n queue running u h in
      run-goes_on (waiting k queue) (waiting (suc k) queue) (tried none) (retries n running)
        (min (doubled initial k) max ∷ []) (turn-fails k queue u)
      ∙ rw (rest, step)

  -- A monitor with a new policy, in which no restart is pending.
  abbrev pub watching : List ActorReport → Monitor
  watching queue = record {
    policy = with_bounds initial max;
    observed = observed;
    restart_count = count;
    pending_restart = false;
    results = mailbox queue capacity;
  }

  turn-exit :
      (queue : List ActorReport) (exited : AppliedState)
      → initial ≤ max
      → length queue < capacity
      → turn (watching queue) (exit_seen exited) ≡ record {
        monitor = waiting 0 (queue ++ crashed (observation exited observed) ∷ []);
        slept = [];
        next = goes_on;
      }
  unfolding turn on_crash with_bounds
  turn-exit queue exited b h =
      let free : ltb (length queue) capacity ≡ true = ground arith in
      let least : min initial max ≡ initial = ground arith in rw (free, least)

  -- A monitor whose policy is new, with bounds in order that a u64 holds and room for two reports,
  -- sees the core exit, and the restart fails `n` times and then succeeds. It waits `n` times and
  -- once more, the initial backoff doubled each time up to the maximum, sends the crash and then the
  -- recovery, counts one restart, and keeps the grown backoff.
  pub run-crash :
      (n : ℕ) (queue : List ActorReport) (exited running : AppliedState)
      → initial ≤ max
      → max ≤ u64_max
      → suc (length queue) < capacity
      → run (watching queue) (exit_seen exited ∷ retries n running) ≡ record {
        monitor = restored n (queue ++ crashed (observation exited observed) ∷ []) running;
        slept = backoffs initial max 0 n;
        next = goes_on;
      }
  run-crash n queue exited running b u h =
      let report = crashed (observation exited observed) in
      let size = length-append queue (report ∷ []) in
      let whole : n + 0 ≡ n = omega arith in
      let rest = run-retries 0 n (queue ++ report ∷ []) running u (omega arith) in
      run-goes_on (watching queue) (waiting 0 (queue ++ report ∷ [])) (exit_seen exited)
        (retries n running) [] (turn-exit queue exited b (omega arith))
      ∙ rw (rest, whole)
