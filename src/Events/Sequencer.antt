-- ===== src/Events/Sequencer.antt =====
-- crates/caly-application/src/events/sequencer.rs: the allocator of event sequence numbers, with its
-- replay window. The projector's channel is held by the sequencer; the receiving end reads it there.
pub mod Replay
pub mod Publish
use caly.Base.{
  ℕ, zero, suc, ◌+◌, ◌-◌, ◌/◌, Bool, Option, none, some, List, [], ◌∷◌, ◌++◌, length, drop,
  get_elem?, ltb, leb, ◌==◌, if◌then◌else◌,
}
use caly.Base.Result.{Result, ok, err}
use caly.Base.Channel.{Channel, TrySendError, full, disconnected, try_send}
use caly.Domain.Event.{EventCursor, SequenceExhausted, checked_next}
use caly.Domain.State.{PresentationDelta}
use mathlib.Core.Option

pub record SequencedEvent : Type 0 where
  pub cursor : EventCursor
  pub event : PresentationDelta

pub data SequencerError : Type 0 where
  invalid_replay_capacity : SequencerError
  sequence_exhausted : PresentationDelta → SequencerError
  projector_backpressure : PresentationDelta → SequencerError
  projector_closed : PresentationDelta → SequencerError

pub record EventSequencer : Type 0 where
  pub daemon_instance : ℕ
  pub current : ℕ
  pub replay : List SequencedEvent
  pub replay_capacity : ℕ
  pub projector : Channel SequencedEvent

unfoldable pub new_at :
    EventCursor → ℕ → Channel SequencedEvent → Result SequencerError EventSequencer
new_at cursor replay_capacity projector =
    if replay_capacity == 0
    then err invalid_replay_capacity
    else ok (record {
      daemon_instance = cursor.daemon_instance;
      current = cursor.sequence;
      replay = [];
      replay_capacity = replay_capacity;
      projector = projector;
    })

-- `EventSequencer::new`: a sequencer at the start of a daemon epoch.
unfoldable pub new : ℕ → ℕ → Channel SequencedEvent → Result SequencerError EventSequencer
unfolding new_at
new daemon_instance replay_capacity projector =
    new_at (record { daemon_instance = daemon_instance; sequence = 0 }) replay_capacity projector

-- The loop `while len > capacity { pop_front }`, on fuel.
unfoldable pub cut {ℓ} : {A : Type ℓ} → ℕ → ℕ → List A → List A
cut zero capacity xs = xs
cut (suc fuel) capacity xs =
    let rest = cut fuel capacity (drop 1 xs) in if ltb capacity (length xs) then rest else xs

unfoldable pub commit_published : EventSequencer → SequencedEvent → EventSequencer × EventCursor
commit_published s e =
    let replay = s.replay ++ e ∷ [] in
    (
      record s {
        current = e.cursor.sequence;
        replay = cut (length replay) s.replay_capacity replay;
      },
      record { daemon_instance = s.daemon_instance; sequence = e.cursor.sequence },
    )

abbrev pub delivered :
    EventSequencer
    → SequencedEvent
    → Channel SequencedEvent × Result (TrySendError SequencedEvent) (Unit {0})
    → EventSequencer × Result SequencerError EventCursor
delivered s e (ch, ok _) =
    let (s', cursor) = commit_published (record s { projector = ch }) e in (s', ok cursor)
delivered s e (ch, err (full v)) =
    (record s { projector = ch }, err (projector_backpressure v.event))
delivered s e (ch, err (disconnected v)) =
    (record s { projector = ch }, err (projector_closed v.event))

abbrev pub numbered :
    EventSequencer
    → PresentationDelta
    → Result SequenceExhausted ℕ
    → EventSequencer × Result SequencerError EventCursor
numbered s event (err _) = (s, err (sequence_exhausted event))
numbered s event (ok next) =
    let e : SequencedEvent = record {
      cursor = record { daemon_instance = s.daemon_instance; sequence = next };
      event = event;
    } in
    delivered s e (try_send s.projector e)

unfoldable pub try_publish :
    EventSequencer → PresentationDelta → EventSequencer × Result SequencerError EventCursor
try_publish s event = numbered s event (checked_next s.current)

-- The binary search `lower_bound`, on fuel; `none` is an index out of range or fuel that ran out.
pub search_step : Option SequencedEvent → ℕ → Option Bool
search_step none sequence = none
search_step (some e) sequence = some (leb e.cursor.sequence sequence)

unfoldable pub bisect : ℕ → List SequencedEvent → ℕ → ℕ → ℕ → Option ℕ
unfolding search_step
bisect zero events sequence low high = if ltb low high then none else some low
bisect (suc fuel) events sequence low high =
    let middle = low + (high - low) / 2 in
    let right = bisect fuel events sequence (middle + 1) high in
    let left = bisect fuel events sequence low middle in
    if ltb low high
    then (elim (search_step (get_elem? events middle) sequence) [
      | none ↦ none
      | some before ↦ if before then right else left
    ])
    else some low

unfoldable pub lower_bound : List SequencedEvent → ℕ → Option ℕ
lower_bound events sequence = bisect (length events) events sequence 0 (length events)

-- `front()?` and `checked_next().ok()?`, and the test against the first event kept.
abbrev pub replay_from :
    List SequencedEvent → Result SequenceExhausted ℕ → ℕ → Option (List SequencedEvent)
replay_from [] _ sequence = none
replay_from (first ∷ rest) (err _) sequence = none
replay_from (first ∷ rest) (ok expected) sequence =
    if ltb expected first.cursor.sequence
    then none
    else Option.map (λ index. drop index (first ∷ rest)) (lower_bound (first ∷ rest) sequence)

unfoldable pub replay_after : EventSequencer → EventCursor → Option (List SequencedEvent)
replay_after s cursor =
    if cursor.daemon_instance == s.daemon_instance
    then (if ltb s.current cursor.sequence
        then none
        else (if cursor.sequence == s.current
            then some []
            else replay_from s.replay (checked_next cursor.sequence) cursor.sequence))
    else none
