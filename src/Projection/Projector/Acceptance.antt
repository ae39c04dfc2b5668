-- ===== src/Projection/Projector/Acceptance.antt =====
-- The events that the projector of `projector.rs` applies, against the classification of cursors in
-- crates/caly-domain/src/event.rs.
use caly.Base.{◌<◌, ◌≡◌, ◌≢◌, ◌↔◌, refl, arith}
use caly.Base.Result.{ok}
use caly.Domain.Event
use caly.Domain.Event.{classify_cursor, checked_next, u64_max}
use caly.Domain.State.{
  PresentationDelta, desired_replaced, applied_replaced, observed_replaced, platform_replaced,
  capabilities_replaced, nodes_replaced, groups_replaced,
}
use caly.Events.Sequencer.{SequencedEvent}
use caly.Projection.Projector.{StateProjector, apply, replace}

replace-revision :
    (p : StateProjector) (d : PresentationDelta) → (replace p d).revision ≡ p.revision
unfolding replace
replace-revision p (desired_replaced v) = refl
replace-revision p (applied_replaced v) = refl
replace-revision p (observed_replaced v) = refl
replace-revision p (platform_replaced v) = refl
replace-revision p (capabilities_replaced v) = refl
replace-revision p (nodes_replaced v) = refl
replace-revision p (groups_replaced v) = refl

-- For a projector whose cursor is of its own epoch: an event is applied exactly where
-- `classify_cursor` says so and a revision is left, and an event that is not to be applied leaves the
-- projector as it was.
pub apply-classify_cursor :
    (p : StateProjector) (e : SequencedEvent)
    → p.cursor.daemon_instance ≡ p.daemon_instance
    → (((apply p e).1 ≡ ok tt)
        ↔ ((classify_cursor p.cursor e.cursor ≡ Event.apply) × (p.revision < u64_max)))
      × (classify_cursor p.cursor e.cursor ≢ Event.apply → (apply p e).0 ≡ p)
unfolding apply classify_cursor checked_next
apply-classify_cursor p e own = (
  (
    λ h. (
      ground (arith, own, replace-revision p e.event),
      ground (arith, own, replace-revision p e.event),
    ),
    λ h. ground (arith, own, replace-revision p e.event),
  ),
  λ h. ground (arith, own, replace-revision p e.event),
)
