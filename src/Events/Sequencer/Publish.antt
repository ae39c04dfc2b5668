-- ===== src/Events/Sequencer/Publish.antt =====
-- `EventSequencer::try_publish`: the next number is given only to an event that the projector takes.
use caly.Base.{
  ℕ, suc, ◌+◌, ◌-◌, ◌≤◌, ◌<◌, ◌≡◌, refl, ap, ◌∙◌, true, [], ◌∷◌, ◌++◌, length, length-append,
  length-drop, drop, ltb, arith,
}
use caly.Base.Result.{ok, err}
use caly.Base.Channel.{Channel}
use caly.Domain.Event.{EventCursor, checked_next, u64_max}
use caly.Domain.State.{PresentationDelta}
use caly.Events.Sequencer.{
  SequencedEvent, EventSequencer, SequencerError, cut, commit_published, try_publish, new_at,
}
use caly.Events.Sequencer.Replay.{append-Runs, drop-Runs, cut-eq-drop, IsSound}

-- The event with the cursor that it is published under.
abbrev pub sequenced : EventSequencer → PresentationDelta → SequencedEvent
sequenced s d = record {
  cursor = record { daemon_instance = s.daemon_instance; sequence = s.current + 1 };
  event = d;
}

-- How many of the oldest events a publication pushes out of the window.
abbrev pub surplus : EventSequencer → ℕ
surplus s = suc (length s.replay) - s.replay_capacity

-- The sequencer after a successful publication.
abbrev pub published : EventSequencer → PresentationDelta → EventSequencer
published s d = record s {
  current = s.current + 1;
  replay = drop (surplus s) (s.replay ++ sequenced s d ∷ []);
  projector = record s.projector { queue = s.projector.queue ++ sequenced s d ∷ [] };
}

abbrev pub HasRoom : Channel SequencedEvent → Type 0
HasRoom ch = (ch.is_open ≡ true) × (length ch.queue < ch.capacity)

pub try_publish_accepted :
    (s : EventSequencer) (d : PresentationDelta)
    → s.current < u64_max
    → HasRoom s.projector
    → try_publish s d ≡ (published s d, ok (sequenced s d).cursor)
unfolding try_publish checked_next commit_published
try_publish_accepted s d h room =
    let n = length-append s.replay (sequenced s d ∷ []) in
    let all = s.replay ++ sequenced s d ∷ [] in
    let kept : cut (length all) s.replay_capacity all ≡ drop (surplus s) all =
      cut-eq-drop (length all) s.replay_capacity all (omega arith)
      ∙ ap (λ k. drop k all) (omega (arith, n)) in
    let next : ltb s.current u64_max ≡ true = ground arith in
    let fits : ltb (length s.projector.queue) s.projector.capacity ≡ true = ground arith in
    rw (next, room.0, fits, kept)

-- A publication that fails leaves the sequencer as it was: no number is used up and no event kept.
pub try_publish_refused :
    (s : EventSequencer) (d : PresentationDelta) (e : SequencerError)
    → (try_publish s d).1 ≡ err e
    → (try_publish s d).0 ≡ s
unfolding try_publish checked_next
try_publish_refused s d e h = ground arith

pub published-IsSound :
    (first : ℕ) (s : EventSequencer) (d : PresentationDelta)
    → IsSound first s
    → s.current < u64_max
    → IsSound (first + surplus s) (published s d)
published-IsSound first s d i h =
    let all = s.replay ++ sequenced s d ∷ [] in
    let n = length-append s.replay (sequenced s d ∷ []) in
    record {
      runs =
          drop-Runs s.daemon_instance first all (s.current + 1) (surplus s)
            (append-Runs s.daemon_instance first s.replay s.current (sequenced s d) i.runs refl)
            (omega (arith, n, i.retains));
      bounded = omega (arith, length-drop (surplus s) all, n);
      retains = i.retains;
      representable = omega arith;
    }

-- A new sequencer has an empty window at its cursor.
pub new_at-IsSound :
    (c : EventCursor) (capacity : ℕ) (ch : Channel SequencedEvent) (s : EventSequencer)
    → c.sequence ≤ u64_max
    → new_at c capacity ch ≡ ok s
    → IsSound c.sequence s
unfolding new_at
new_at-IsSound c capacity ch s h e = ground arith
