-- ===== src/Shutdown.antt =====
-- crates/caly-application/src/runtime: shutdown.rs, the mandatory order of shutdown phases, and
-- shutdown_runner.rs, the driver that runs every phase; fatal.rs is in Fatal.
pub mod Runner
pub mod Fatal
mod Tests
use caly.Base.{
  ℕ, ◌≡◌, refl, ◌⊎◌, inl, inr, Bool, true, false, Option, none, some, List, [], ◌∷◌, drop,
}
use caly.Base.Result.{Result, ok, err}

pub data ShutdownPhase : Type 0 where
  reject_transport_mutations close_command_ingress stop_telemetry stop_and_reap_core
        restore_platform stop_subscriptions finish_config_transactions flush_event_sequencer
        stop_projector release_transport_and_lock completed :
      ShutdownPhase

-- `ShutdownPhase::next`.
unfoldable pub next : ShutdownPhase → Option ShutdownPhase
next reject_transport_mutations = some close_command_ingress
next close_command_ingress = some stop_telemetry
next stop_telemetry = some stop_and_reap_core
next stop_and_reap_core = some restore_platform
next restore_platform = some stop_subscriptions
next stop_subscriptions = some finish_config_transactions
next finish_config_transactions = some flush_event_sequencer
next flush_event_sequencer = some stop_projector
next stop_projector = some release_transport_and_lock
next release_transport_and_lock = some completed
next completed = none

abbrev pub is_completed : ShutdownPhase → Bool
is_completed completed = true
is_completed _ = false

pub data ShutdownComplete : Type 0 where
  shutdown_complete : ShutdownComplete

pub record ShutdownDriver : Type 0 where
  pub current : ShutdownPhase

abbrev pub new_driver : ShutdownDriver
new_driver = record { current = reject_transport_mutations }

abbrev pub completed_to :
    ShutdownDriver → Option ShutdownPhase → ShutdownDriver × Result ShutdownComplete ShutdownPhase
completed_to d none = (d, err shutdown_complete)
completed_to d (some p) = (record { current = p }, ok p)

unfoldable pub complete_current :
    ShutdownDriver → ShutdownDriver × Result ShutdownComplete ShutdownPhase
unfolding next
complete_current d = completed_to d (next d.current)

abbrev pub all_phases : List ShutdownPhase
all_phases =
    reject_transport_mutations ∷ close_command_ingress ∷ stop_telemetry ∷ stop_and_reap_core
    ∷ restore_platform ∷ stop_subscriptions ∷ finish_config_transactions ∷ flush_event_sequencer
    ∷ stop_projector ∷ release_transport_and_lock ∷ []

-- The place of a phase in the derived order.
abbrev pub rank : ShutdownPhase → ℕ
rank reject_transport_mutations = 0
rank close_command_ingress = 1
rank stop_telemetry = 2
rank stop_and_reap_core = 3
rank restore_platform = 4
rank stop_subscriptions = 5
rank finish_config_transactions = 6
rank flush_event_sequencer = 7
rank stop_projector = 8
rank release_transport_and_lock = 9
rank completed = 10

-- The phases that are left from one on, in order.
abbrev pub phases_from : ShutdownPhase → List ShutdownPhase
phases_from p = drop (rank p) all_phases

-- A phase is the last one, or its successor begins the rest of the list.
pub phase_cases :
    (p : ShutdownPhase)
    → (p ≡ completed)
      ⊎ ((q : ShutdownPhase) × (next p ≡ some q)
          × (is_completed p ≡ false)
          × (phases_from p ≡ p ∷ phases_from q))
unfolding next
phase_cases reject_transport_mutations = inr (_, refl, refl, refl)
phase_cases close_command_ingress = inr (_, refl, refl, refl)
phase_cases stop_telemetry = inr (_, refl, refl, refl)
phase_cases stop_and_reap_core = inr (_, refl, refl, refl)
phase_cases restore_platform = inr (_, refl, refl, refl)
phase_cases stop_subscriptions = inr (_, refl, refl, refl)
phase_cases finish_config_transactions = inr (_, refl, refl, refl)
phase_cases flush_event_sequencer = inr (_, refl, refl, refl)
phase_cases stop_projector = inr (_, refl, refl, refl)
phase_cases release_transport_and_lock = inr (_, refl, refl, refl)
phase_cases completed = inl refl
