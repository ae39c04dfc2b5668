-- ===== src/Projection/Runtime/Publish.antt =====
-- Publication through `ProjectionRuntime`: with the channel empty between calls, an event is
-- numbered, delivered and applied in one call.
use caly.Base.{ℕ, ◌+◌, ◌≤◌, ◌<◌, ◌≡◌, refl, ap, ◌∙◌, true, false, [], ◌∷◌, ◌==◌, ==_refl, arith}
use caly.Base.Result.{ok}
use caly.Domain.Event.{EventCursor, checked_next, u64_max}
use caly.Domain.State.{PresentationDelta, PresentationSnapshot}
use caly.Events.Sequencer.{SequencedEvent, new_at}
use caly.Events.Sequencer.Replay
use caly.Events.Sequencer.Publish.{
  sequenced, surplus, published, try_publish_accepted, published-IsSound,
}
use caly.Projection.Projector.{StateProjector, replace, apply, from_snapshot}
use caly.Projection.Runtime.{
  ProjectionRuntime, max_replay_batch, publish, new, recover_from_snapshot,
}

-- The state of a runtime between two calls. `first` is the event before the replay window.
pub record IsSound (first : ℕ) (r : ProjectionRuntime) : Type 0 where
  pub healthy : r.poisoned ≡ false
  pub window : Replay.IsSound first r.sequencer
  pub idle : r.sequencer.projector.queue ≡ []
  pub listening : r.sequencer.projector.is_open ≡ true
  pub room : 0 < r.sequencer.projector.capacity
  pub epoch : r.projector.daemon_instance ≡ r.sequencer.daemon_instance
  pub in_step :
      r.projector.cursor
      ≡ record { daemon_instance = r.sequencer.daemon_instance; sequence = r.sequencer.current }
  pub small : r.sequencer.replay_capacity ≤ max_replay_batch

-- The projector after one contiguous event.
abbrev pub advanced : StateProjector → SequencedEvent → StateProjector
advanced p e = record (replace p e.event) { cursor = e.cursor; revision = p.revision + 1 }

replace_keeps :
    (p : StateProjector) (d : PresentationDelta)
    → ((replace p d).revision ≡ p.revision) × ((replace p d).daemon_instance ≡ p.daemon_instance)
unfolding replace
replace_keeps p d = ground arith

pub apply_next :
    (p : StateProjector) (e : SequencedEvent)
    → e.cursor ≡ record { daemon_instance = p.daemon_instance; sequence = p.cursor.sequence + 1 }
    → p.cursor.sequence < u64_max
    → p.revision < u64_max
    → apply p e ≡ (advanced p e, ok tt)
unfolding apply checked_next
apply_next p e c s r = ground (arith, replace_keeps p e.event)

-- The runtime after a successful publication.
abbrev pub after : ProjectionRuntime → PresentationDelta → ProjectionRuntime
after r d = record r {
  sequencer = record (published r.sequencer d) {
    projector = record r.sequencer.projector { queue = [] };
  };
  projector = advanced r.projector (sequenced r.sequencer d);
  live = sequenced r.sequencer d ∷ r.live;
}

module _ (first : ℕ) (r : ProjectionRuntime) (d : PresentationDelta) (i : IsSound first r)
    (c : r.sequencer.current < u64_max) (v : r.projector.revision < u64_max) where
  pub apply-sequenced :
      apply r.projector (sequenced r.sequencer d)
      ≡ (advanced r.projector (sequenced r.sequencer d), ok tt)
  apply-sequenced =
      let here = ap (λ (c : EventCursor). c.sequence) i.in_step in
      apply_next r.projector (sequenced r.sequencer d) (cc (here, i.epoch)) (omega (arith, here)) v

  -- On a sound runtime with an event number and a revision left, a publication succeeds: the event
  -- gets the next number, the projector applies it, and nothing is left in the channel.
  pub publish_sound : publish r d ≡ (after r d, ok (sequenced r.sequencer d).cursor)
  unfolding publish
  publish_sound = ground (
    arith,
    try_publish_accepted r.sequencer d c (i.listening, rw i.idle i.room),
    apply-sequenced,
    i.idle,
    ==_refl r.sequencer.daemon_instance,
    ==_refl (r.sequencer.current + 1),
  )

pub after-IsSound :
    (first : ℕ) (r : ProjectionRuntime) (d : PresentationDelta)
    → IsSound first r
    → r.sequencer.current < u64_max
    → IsSound (first + surplus r.sequencer) (after r d)
after-IsSound first r d i c = record {
  healthy = i.healthy;
  window = record {
    runs = (published-IsSound first r.sequencer d i.window c).runs;
    bounded = (published-IsSound first r.sequencer d i.window c).bounded;
    retains = i.window.retains;
    representable = omega arith;
  };
  idle = refl;
  listening = i.listening;
  room = i.room;
  epoch = (replace_keeps r.projector d).1 ∙ i.epoch;
  in_step = refl;
  small = i.small;
}

-- A runtime started from a coherent snapshot is sound, with an empty window at the snapshot's cursor.
pub new-IsSound :
    (snap : PresentationSnapshot) (channel_capacity replay_capacity : ℕ) (r : ProjectionRuntime)
    → snap.cursor.sequence ≤ u64_max
    → new snap channel_capacity replay_capacity ≡ ok r
    → IsSound snap.cursor.sequence r
unfolding new new_at
new-IsSound snap channel_capacity replay_capacity r h e = ground arith

-- Recovery from any coherent snapshot makes a runtime sound again, whatever state it was in, as long
-- as its capacities are those of a runtime that `new` made.
pub recover_from_snapshot-IsSound :
    (r : ProjectionRuntime) (snap : PresentationSnapshot)
    → snap.cursor.daemon_instance ≡ snap.daemon_instance
    → snap.cursor.sequence ≤ u64_max
    → 0 < r.channel_capacity
    → 0 < r.replay_capacity
    → r.replay_capacity ≤ max_replay_batch
    → ((recover_from_snapshot r snap).1 ≡ ok tt)
      × IsSound snap.cursor.sequence (recover_from_snapshot r snap).0
      × ((recover_from_snapshot r snap).0.projector ≡ from_snapshot snap)
unfolding recover_from_snapshot new_at
recover_from_snapshot-IsSound r snap coherent h ch rp small =
    let same : (snap.cursor.daemon_instance == snap.daemon_instance) ≡ true = ground arith in
    let positive : (r.replay_capacity == 0) ≡ false = ground arith in
    rw (same, positive) (refl, ground arith, refl)
