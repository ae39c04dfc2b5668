-- ===== src/Projection/Runtime.antt =====
-- crates/caly-application/src/projection/runtime.rs: the sole owner of the sequencer, the reliable
-- channel and the projector. The channel is the one value `sequencer.projector`: the sequencer sends
-- into it and `receiver` takes from it. `live` is what has been handed to the broadcast channel,
-- newest first; what subscribers make of it is not modelled.
pub mod Publish
pub mod Sync
pub mod Watch
use caly.Base.{
  ℕ, Bool, true, false, ◌||◌, Option, none, some, List, [], ◌∷◌, length, ltb, ◌==◌, ◌&&◌,
  if◌then◌else◌,
}
use caly.Base.Result.{Result, ok, err}
use caly.Base.Channel.{Channel, TryRecvError, nothing_queued, sender_gone, try_recv, sync_channel}
use caly.Domain.Event.{EventCursor}
use caly.Domain.State.{PresentationDelta, PresentationSnapshot}
use caly.Events.Sequencer.{
  SequencedEvent, EventSequencer, SequencerError, new_at, try_publish, replay_after,
}
use caly.Projection.Projector.{StateProjector, ProjectionError, from_snapshot, snapshot, apply}

pub data ProjectionRuntimeError : Type 0 where
  invalid_capacity is_poisoned : ProjectionRuntimeError
  sequencer_error : SequencerError → ProjectionRuntimeError
  reliable_channel_empty reliable_channel_closed cursor_mismatch : ProjectionRuntimeError
  projector_error : ProjectionError → ProjectionRuntimeError

pub record ProjectionRuntime : Type 0 where
  pub sequencer : EventSequencer
  pub projector : StateProjector
  pub channel_capacity : ℕ
  pub replay_capacity : ℕ
  pub poisoned : Bool
  pub live : List SequencedEvent

abbrev pub max_replay_batch : ℕ
max_replay_batch = 1024

abbrev pub started :
    PresentationSnapshot
    → ℕ
    → ℕ
    → Result SequencerError EventSequencer
    → Result ProjectionRuntimeError ProjectionRuntime
started snap channel_capacity replay_capacity (err e) = err (sequencer_error e)
started snap channel_capacity replay_capacity (ok sequencer) = ok (record {
  sequencer = sequencer;
  projector = from_snapshot snap;
  channel_capacity = channel_capacity;
  replay_capacity = replay_capacity;
  poisoned = false;
  live = [];
})

unfoldable pub new : PresentationSnapshot → ℕ → ℕ → Result ProjectionRuntimeError ProjectionRuntime
new snap channel_capacity replay_capacity =
    if channel_capacity == 0 || (replay_capacity == 0 || ltb max_replay_batch replay_capacity)
    then err invalid_capacity
    else (if snap.cursor.daemon_instance == snap.daemon_instance
        then started snap channel_capacity replay_capacity
            (new_at snap.cursor replay_capacity (sync_channel channel_capacity))
        else err cursor_mismatch)

abbrev pub poison :
    ProjectionRuntime
    → ProjectionRuntimeError
    → ProjectionRuntime × Result ProjectionRuntimeError EventCursor
poison r e = (record r { poisoned = true }, err e)

abbrev pub projected :
    ProjectionRuntime
    → EventCursor
    → StateProjector × Result ProjectionError (Unit {0})
    → ProjectionRuntime × Result ProjectionRuntimeError EventCursor
projected r cursor (p, ok _) = (record r { projector = p }, ok cursor)
projected r cursor (p, err e) = poison (record r { projector = p }) (projector_error e)

abbrev pub same_cursor : EventCursor → EventCursor → Bool
same_cursor a b = a.daemon_instance == b.daemon_instance && a.sequence == b.sequence

abbrev pub with_channel : ProjectionRuntime → Channel SequencedEvent → ProjectionRuntime
with_channel r ch = record r { sequencer = record r.sequencer { projector = ch } }

abbrev pub taken :
    ProjectionRuntime
    → EventCursor
    → Channel SequencedEvent × Result TryRecvError SequencedEvent
    → ProjectionRuntime × Result ProjectionRuntimeError EventCursor
taken r cursor (ch, err nothing_queued) = (with_channel r ch, err reliable_channel_empty)
taken r cursor (ch, err sender_gone) = poison (with_channel r ch) reliable_channel_closed
taken r cursor (ch, ok delivered) =
    if same_cursor delivered.cursor cursor
    then projected (record (with_channel r ch) { live = delivered ∷ r.live }) cursor
        (apply r.projector delivered)
    else poison (with_channel r ch) cursor_mismatch

-- The sequencer holds the sender, so `try_recv` finds it alive.
abbrev pub numbered :
    ProjectionRuntime
    → EventSequencer × Result SequencerError EventCursor
    → ProjectionRuntime × Result ProjectionRuntimeError EventCursor
numbered r (s, err e) = (record r { sequencer = s }, err (sequencer_error e))
numbered r (s, ok cursor) = taken (record r { sequencer = s }) cursor (try_recv s.projector true)

unfoldable pub publish :
    ProjectionRuntime
    → PresentationDelta
    → ProjectionRuntime × Result ProjectionRuntimeError EventCursor
publish r delta =
    if r.poisoned then (r, err is_poisoned) else numbered r (try_publish r.sequencer delta)

abbrev pub rebuilt :
    ProjectionRuntime
    → PresentationSnapshot
    → Result SequencerError EventSequencer
    → ProjectionRuntime × Result ProjectionRuntimeError (Unit {0})
rebuilt r snap (err e) = (r, err (sequencer_error e))
rebuilt r snap (ok s) =
    (record r { sequencer = s; projector = from_snapshot snap; poisoned = false }, ok tt)

unfoldable pub recover_from_snapshot :
    ProjectionRuntime
    → PresentationSnapshot
    → ProjectionRuntime × Result ProjectionRuntimeError (Unit {0})
recover_from_snapshot r snap =
    if snap.cursor.daemon_instance == snap.daemon_instance
    then rebuilt r snap (new_at snap.cursor r.replay_capacity (sync_channel r.channel_capacity))
    else (r, err cursor_mismatch)

unfoldable pub try_recover :
    ProjectionRuntime → ProjectionRuntime × Result ProjectionRuntimeError (Unit {0})
unfolding recover_from_snapshot
try_recover r = if r.poisoned then recover_from_snapshot r (snapshot r.projector) else (r, ok tt)

unfoldable pub current_snapshot :
    ProjectionRuntime → Result ProjectionRuntimeError PresentationSnapshot
current_snapshot r = if r.poisoned then err is_poisoned else ok (snapshot r.projector)

pub data ApplicationWatch : Type 0 where
  full_snapshot : PresentationSnapshot → ApplicationWatch
  replays : List SequencedEvent → ApplicationWatch

pub data ApplicationServiceError : Type 0 where
  internal_invariant : ApplicationServiceError

-- `ReplayBatch` holds at most `max_replay_batch` events.
abbrev pub watched :
    ProjectionRuntime
    → Option (List SequencedEvent)
    → Result ApplicationServiceError ApplicationWatch
watched r none = ok (full_snapshot (snapshot r.projector))
watched r (some events) =
    if ltb max_replay_batch (length events) then err internal_invariant else ok (replays events)

abbrev pub watch_from :
    ProjectionRuntime → Option EventCursor → Result ApplicationServiceError ApplicationWatch
watch_from r none = ok (full_snapshot (snapshot r.projector))
watch_from r (some cursor) = watched r (replay_after r.sequencer cursor)

unfoldable pub watch_after :
    ProjectionRuntime → Option EventCursor → Result ApplicationServiceError ApplicationWatch
watch_after r cursor = if r.poisoned then err internal_invariant else watch_from r cursor
