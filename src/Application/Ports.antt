-- ===== src/Application/Ports.antt =====
-- crates/caly-ports/src (lifecycle.rs, config.rs, core.rs, platform.rs, tun.rs, subscription.rs and
-- cells.rs): the traits through which the handlers reach the backends, as records of operations on
-- the state `W` that the backends share. The methods `stop`, `restart`, `select_proxy`,
-- `select_proxy_group`, `close_all_connections`, `set_mode`, `set_system_proxy`, `set_system_proxy_pac`
-- and `set_tun` are, in this order, `stop_core`, `restart_core`, `choose_proxy`, `choose_proxy_group`,
-- `close_connections`, `change_mode`, `engage_proxy`, `engage_pac` and `engage_tun`; the others keep
-- their names, and `start` is left out, since no handler calls it.
use caly.Base.{ℕ, Bool, Option, List}
use caly.Base.Result.{Result}
use caly.Base.Channel.{Channel}
use caly.Domain.Text.{Text}
use caly.Domain.State.{
  AppliedState, ObservedState, DesiredState, PlatformEffectView, DisplayNode, ProxyGroupView,
  ProxyMode, CoreKind,
}
use caly.Events.Bus.{EventBus}
use caly.Application.Reporting.{ActorFailure, ActorReport}

pub record RefreshMode : Type 0 where
  pub is_forced : Bool
  pub is_scheduled : Bool

pub record RefreshOutcome : Type 0 where
  pub nodes : List DisplayNode
  pub changed : Bool

pub record PreparedConfig : Type 0 where
  pub candidate : ℕ
  pub prepared_generation : ℕ

pub record CommittedConfig : Type 0 where
  pub candidate : ℕ
  pub generation : ℕ
  pub unchanged : Bool

-- A method on `&mut self` that answers with a value or a failure.
abbrev pub Method {ℓ} : Type ℓ → Type 0 → Type ℓ
Method W A = W → W × Result ActorFailure A

pub record CoreLifecycleCommandBackend {ℓ} (W : Type ℓ) : Type ℓ where
  pub stop_core : Method W AppliedState
  pub restart_core : Method W AppliedState
  pub hot_reload : List ℕ → ℕ → W → W × Result Text (Unit {0})
  pub switch_to : CoreKind → Method W AppliedState

pub record ConfigActorPort {ℓ} (W : Type ℓ) : Type ℓ where
  pub parse_and_render : ℕ → Method W PreparedConfig
  pub discard_prepared : PreparedConfig → Method W (Unit {0})
  pub commit_candidate : PreparedConfig → Method W CommittedConfig
  pub rollback_commit : CommittedConfig → Method W (Unit {0})
  pub current_contents : W → Option (List ℕ)

pub record CoreCommandBackend {ℓ} (W : Type ℓ) : Type ℓ where
  pub choose_proxy : ℕ → Method W AppliedState
  pub choose_proxy_group : Text → Text → Method W AppliedState
  pub close_connections : Method W ObservedState
  pub change_mode : ProxyMode → Method W AppliedState
  pub list_proxy_groups : ℕ → Method W (List ProxyGroupView)

pub record PlatformCommandBackend {ℓ} (W : Type ℓ) : Type ℓ where
  pub engage_proxy : Bool → Method W PlatformEffectView
  pub engage_pac : Text → Method W PlatformEffectView

pub record TunCommandBackend {ℓ} (W : Type ℓ) : Type ℓ where
  pub engage_tun : Bool → Method W PlatformEffectView

pub record SubscriptionCommandBackend {ℓ} (W : Type ℓ) : Type ℓ where
  pub refresh : ℕ → RefreshMode → Method W RefreshOutcome

-- The backends that composition hands to the handlers. `active_core` reads the cell of the running
-- core that they share, `none` where its mutex is poisoned.
pub record Backends {ℓ} (W : Type ℓ) : Type ℓ where
  pub lifecycle : CoreLifecycleCommandBackend W
  pub config : ConfigActorPort W
  pub core : CoreCommandBackend W
  pub platform : PlatformCommandBackend W
  pub tun : TunCommandBackend W
  pub subscription : SubscriptionCommandBackend W
  pub active_core : W → Option CoreKind

-- What the handlers share: the backends' state, the cell of the desired state (`SharedDesiredState`,
-- its mutex not poisoned), the event bus and the mailbox of reports.
pub record Owned {ℓ} (W : Type ℓ) : Type ℓ where
  pub backend : W
  pub desired : DesiredState
  pub events : EventBus
  pub results : Channel ActorReport
