-- ===== src/Domain/State.antt =====
-- crates/caly-domain/src/state, capability.rs and node/display.rs: the slices of the presentation
-- state and the deltas that replace them. Kernel names are texts.
use caly.Base.{ℕ, Bool, true, false, not, ◌&&◌, ◌||◌, Option, none, some, List, if◌then◌else◌}
use caly.Base.Result.{Result, ok, err}
use caly.Domain.Text.{Text}
use caly.Domain.Event.{EventCursor}

pub data CoreKind : Type 0 where
  mihomo sing_box xray : CoreKind

pub data ProxyMode : Type 0 where
  rule global direct : ProxyMode

pub data CoreRunState : Type 0 where
  stopped starting running stopping crashed failed : CoreRunState

pub record AppliedState : Type 0 where
  pub core : Option CoreKind
  pub run_state : CoreRunState
  pub selected_node : Option ℕ
  pub config_generation : Option ℕ

pub data AppliedStateError : Type 0 where
  active_without_core stopped_with_runtime_details : AppliedStateError

abbrev pub is_stopped : CoreRunState → Bool
is_stopped stopped = true
is_stopped _ = false

abbrev pub is_some {ℓ} : {A : Type ℓ} → Option A → Bool
is_some none = false
is_some (some _) = true

unfoldable pub stopped_state : AppliedState
stopped_state = record {
  core = none;
  run_state = stopped;
  selected_node = none;
  config_generation = none;
}

unfoldable pub new_applied :
    Option CoreKind → CoreRunState → Option ℕ → Option ℕ → Result AppliedStateError AppliedState
new_applied core run_state selected generation =
    if is_stopped run_state && (is_some core || is_some selected || is_some generation)
    then err stopped_with_runtime_details
    else (if not (is_stopped run_state) && not (is_some core)
        then err active_without_core
        else ok (record {
          core = core;
          run_state = run_state;
          selected_node = selected;
          config_generation = generation;
        }))

pub record DesiredState : Type 0 where
  pub mode : ProxyMode
  pub selected_node : Option ℕ
  pub active_subscription : Option ℕ
  pub tun_requested : Bool
  pub system_proxy_requested : Bool

pub record ObservedState : Type 0 where
  pub upload_bytes_per_second : ℕ
  pub download_bytes_per_second : ℕ
  pub active_connections : ℕ
  pub telemetry_dropped : ℕ
  pub core_restart_count : ℕ
  pub core_restart_backoff_ms : ℕ

pub record PlatformEffectView : Type 0 where
  pub proxy_engaged : Bool
  pub tun_engaged : Bool
  pub recovery_pending : Bool
  pub degraded_reason : Option Text

pub data Capability : Type 0 where
  tun_configuration dns_configuration runtime_mode_switch proxy_groups : Capability
  proxy_selection url_test connections connection_close traffic logs rules : Capability

pub data ConfiguredSupport : Type 0 where
  unsupported supported partial : ConfiguredSupport

pub data RuntimeAvailability : Type 0 where
  not_required available unavailable unknown : RuntimeAvailability

pub record CapabilityStatus : Type 0 where
  pub capability : Capability
  pub configured : ConfiguredSupport
  pub runtime : RuntimeAvailability
  pub caveat : Option Text

pub record DisplayNode : Type 0 where
  pub id : ℕ
  pub name : Text
  pub protocol : Text
  pub available : Bool
  pub latency_ms : Option ℕ

pub record ProxyGroupView : Type 0 where
  pub name : Text
  pub kind : Text
  pub selected : Option Text
  pub members : List Text

pub data PresentationDelta : Type 0 where
  desired_replaced : DesiredState → PresentationDelta
  applied_replaced : AppliedState → PresentationDelta
  observed_replaced : ObservedState → PresentationDelta
  platform_replaced : PlatformEffectView → PresentationDelta
  capabilities_replaced : List CapabilityStatus → PresentationDelta
  nodes_replaced : List DisplayNode → PresentationDelta
  groups_replaced : List ProxyGroupView → PresentationDelta

pub record PresentationSnapshot : Type 0 where
  pub daemon_instance : ℕ
  pub revision : ℕ
  pub cursor : EventCursor
  pub desired : DesiredState
  pub applied : AppliedState
  pub observed : ObservedState
  pub platform : PlatformEffectView
  pub capabilities : List CapabilityStatus
  pub nodes : List DisplayNode
  pub proxy_groups : List ProxyGroupView
