-- ===== src/Projection/Projector.antt =====
-- crates/caly-application/src/projection/projector.rs: the state that the ordered events build up.
pub mod Acceptance
use caly.Base.{ℕ, ◌+◌, List, ltb, ◌==◌, if◌then◌else◌}
use caly.Base.Result.{Result, ok, err}
use caly.Domain.Event.{EventCursor, SequenceExhausted, checked_next, u64_max}
use caly.Domain.State.{
  PresentationDelta, PresentationSnapshot, AppliedState, DesiredState, ObservedState,
  PlatformEffectView, CapabilityStatus, DisplayNode, ProxyGroupView, desired_replaced,
  applied_replaced, observed_replaced, platform_replaced, capabilities_replaced, nodes_replaced,
  groups_replaced,
}
use caly.Events.Sequencer.{SequencedEvent}

pub data ProjectionError : Type 0 where
  epoch_mismatch non_contiguous_event revision_exhausted : ProjectionError

pub record StateProjector : Type 0 where
  pub daemon_instance : ℕ
  pub cursor : EventCursor
  pub revision : ℕ  -- a `u64`
  pub desired : DesiredState
  pub applied : AppliedState
  pub observed : ObservedState
  pub platform : PlatformEffectView
  pub capabilities : List CapabilityStatus
  pub nodes : List DisplayNode
  pub proxy_groups : List ProxyGroupView

abbrev pub from_snapshot : PresentationSnapshot → StateProjector
from_snapshot s = record {
  daemon_instance = s.daemon_instance;
  cursor = s.cursor;
  revision = s.revision;
  desired = s.desired;
  applied = s.applied;
  observed = s.observed;
  platform = s.platform;
  capabilities = s.capabilities;
  nodes = s.nodes;
  proxy_groups = s.proxy_groups;
}

abbrev pub snapshot : StateProjector → PresentationSnapshot
snapshot p = record {
  daemon_instance = p.daemon_instance;
  revision = p.revision;
  cursor = p.cursor;
  desired = p.desired;
  applied = p.applied;
  observed = p.observed;
  platform = p.platform;
  capabilities = p.capabilities;
  nodes = p.nodes;
  proxy_groups = p.proxy_groups;
}

unfoldable pub replace : StateProjector → PresentationDelta → StateProjector
replace p (desired_replaced v) = record p { desired = v }
replace p (applied_replaced v) = record p { applied = v }
replace p (observed_replaced v) = record p { observed = v }
replace p (platform_replaced v) = record p { platform = v }
replace p (capabilities_replaced v) = record p { capabilities = v }
replace p (nodes_replaced v) = record p { nodes = v }
replace p (groups_replaced v) = record p { proxy_groups = v }

-- The end of `apply`: the slice and the cursor are replaced before the revision is counted.
abbrev pub counted : StateProjector → StateProjector × Result ProjectionError (Unit {0})
counted p =
    if ltb p.revision u64_max
    then (record p { revision = p.revision + 1 }, ok tt)
    else (p, err revision_exhausted)

abbrev pub applied_at :
    StateProjector
    → SequencedEvent
    → Result SequenceExhausted ℕ
    → StateProjector × Result ProjectionError (Unit {0})
applied_at p e (err _) = (p, err revision_exhausted)
applied_at p e (ok expected) =
    if e.cursor.sequence == expected
    then counted (record (replace p e.event) { cursor = e.cursor })
    else (p, err non_contiguous_event)

unfoldable pub apply :
    StateProjector → SequencedEvent → StateProjector × Result ProjectionError (Unit {0})
apply p e =
    if e.cursor.daemon_instance == p.daemon_instance
    then applied_at p e (checked_next p.cursor.sequence)
    else (p, err epoch_mismatch)
