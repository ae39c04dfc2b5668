-- ===== src/Shutdown/Fatal.antt =====
-- crates/caly-application/src/runtime/fatal.rs: the guard that keeps the first fatal fault of the
-- runtime and starts its shutdown.
use caly.Base.{
  ℕ, suc, ◌+◌, ◌-◌, ◌^◌, ◌≤◌, ◌≡◌, refl, Bool, true, false, Option, none, some, List, [], ◌∷◌,
  length, ltb, if◌then◌else◌, arith,
}
use caly.Shutdown.{ShutdownDriver, new_driver}

abbrev pub u32_max : ℕ
u32_max = 2 ^ 32 - 1

pub data FatalFault : Type 0 where
  command_dispatch actor_result projection task_join infrastructure_recovery : FatalFault

pub data FatalRecordOutcome : Type 0 where
  first_fault : FatalRecordOutcome
  additional_fault : (total : ℕ) → FatalRecordOutcome

-- The cancellation flag that all tasks share, and the value that the watch channel holds for its
-- subscribers, are fields.
pub record RuntimeGuard : Type 0 where
  pub cancelled : Bool
  pub shutdown : ShutdownDriver
  pub first : Option FatalFault
  pub fault_count : ℕ
  pub fatal_signal : Option FatalFault

abbrev pub new_guard : RuntimeGuard
new_guard = record {
  cancelled = false;
  shutdown = new_driver;
  first = none;
  fault_count = 0;
  fatal_signal = none;
}

abbrev pub saturating_add : ℕ → ℕ → ℕ
saturating_add a b = if ltb u32_max (a + b) then u32_max else a + b

abbrev recorded : Option FatalFault → RuntimeGuard → FatalFault → RuntimeGuard × FatalRecordOutcome
recorded none g fault = (record g { first = some fault; fatal_signal = some fault }, first_fault)
recorded (some _) g fault = (g, additional_fault g.fault_count)

-- `record_fatal`.
unfoldable pub record_fatal : RuntimeGuard → FatalFault → RuntimeGuard × FatalRecordOutcome
record_fatal g fault =
    let counted = record g { cancelled = true; fault_count = saturating_add g.fault_count 1 } in
    recorded g.first counted fault

unfoldable pub record_all : RuntimeGuard → List FatalFault → RuntimeGuard × List FatalRecordOutcome
record_all g [] = (g, [])
record_all g (fault ∷ faults) =
    let (g', outcome) = record_fatal g fault in
    let (end, outcomes) = record_all g' faults in (end, outcome ∷ outcomes)

-- What the faults after the first are answered, where `n` came before them.
abbrev pub additional : ℕ → List FatalFault → List FatalRecordOutcome
additional n [] = []
additional n (fault ∷ faults) =
    additional_fault (saturating_add n 1) ∷ additional (saturating_add n 1) faults

abbrev at_most : ℕ → ℕ
at_most n = if ltb u32_max n then u32_max else n

record_all-additional :
    (g : RuntimeGuard) (kept : FatalFault) (faults : List FatalFault)
    → g.first ≡ some kept
    → g.cancelled ≡ true
    → g.fault_count ≤ u32_max
    → record_all g faults ≡ (
      record g { fault_count = at_most (g.fault_count + length faults) },
      additional g.fault_count faults,
    )
unfolding record_all record_fatal
record_all-additional g kept [] h c n = ground arith
record_all-additional g kept (fault ∷ faults) h c n =
    let g' = record g { fault_count = saturating_add g.fault_count 1 } in
    let step : record_fatal g fault ≡ (g', additional_fault g'.fault_count) =
      ground (arith, h, c) in
    let rest = record_all-additional g' kept faults h c (ground arith) in
    let same : at_most (g'.fault_count + length faults)
        ≡ at_most (g.fault_count + suc (length faults)) =
      ground arith in
    rw (step, rest, same) refl

-- Of any faults recorded on a new guard, the first is kept and shown to every subscriber of the
-- signal, cancellation is requested, each fault is counted up to the bound of a u32, and the shutdown
-- phase stays where it was.
pub record_all-first :
    (fault : FatalFault) (faults : List FatalFault)
    → record_all new_guard (fault ∷ faults) ≡ (
      record {
        cancelled = true;
        shutdown = new_driver;
        first = some fault;
        fault_count = at_most (1 + length faults);
        fatal_signal = some fault;
      },
      first_fault ∷ additional 1 faults,
    )
unfolding record_all record_fatal
record_all-first fault faults =
    rw (record_all-additional (record_fatal new_guard fault).0 fault faults refl refl (omega arith))
      refl
