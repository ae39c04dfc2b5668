-- ===== src/Projection/Runtime/Sync.antt =====
-- Clients that hold an older snapshot of `projector.rs` and follow the events that `watch_after` of
-- `runtime.rs` replays.
use caly.Base.{
  ℕ, suc, ◌+◌, ◌-◌, ◌≤◌, ◌≡◌, refl, sym, ap, ◌∙◌, false, some, List, [], ◌∷◌, ◌++◌, length,
  length-append, drop, drop-append_le, drop-append_length, ltb, arith,
}
use caly.Base.Result.{ok}
use caly.Domain.Event.{EventCursor, u64_max}
use caly.Domain.State.{PresentationDelta}
use caly.Events.Sequencer.{SequencedEvent, replay_after}
use caly.Events.Sequencer.Replay.{length-Runs, replay_after-window}
use caly.Events.Sequencer.Publish.{sequenced, surplus}
use caly.Projection.Projector.{StateProjector, apply, from_snapshot, snapshot}
use caly.Projection.Runtime.{ProjectionRuntime, replays, publish, watch_after, max_replay_batch}
use caly.Projection.Runtime.Publish.{IsSound, after, apply-sequenced, publish_sound, after-IsSound}
use mathlib.Core.List.{append_assoc, append-nil}

-- A client folds a batch of events into its own projector.
unfoldable pub apply_all : StateProjector → List SequencedEvent → StateProjector
apply_all p [] = p
apply_all p (e ∷ es) = apply_all (apply p e).0 es

unfoldable pub publish_all : ProjectionRuntime → List PresentationDelta → ProjectionRuntime
publish_all r [] = r
publish_all r (d ∷ ds) = publish_all (publish r d).0 ds

-- The events under which the deltas are published.
pub log : ProjectionRuntime → List PresentationDelta → List SequencedEvent
log r [] = []
log r (d ∷ ds) = sequenced r.sequencer d ∷ log (publish r d).0 ds

-- Room for that many more numbers and revisions.
abbrev pub CanCount : ProjectionRuntime → ℕ → Type 0
CanCount r n = (r.sequencer.current + n ≤ u64_max) × (r.projector.revision + n ≤ u64_max)

module _ (r : ProjectionRuntime) (d : PresentationDelta) (first n : ℕ) (i : IsSound first r)
    (c : CanCount r (suc n)) where
  publish-after : (publish r d).0 ≡ after r d
  publish-after = ap (λ x. x.0) (publish_sound first r d i (omega arith) (omega arith))

  apply-after : (apply r.projector (sequenced r.sequencer d)).0 ≡ (after r d).projector
  apply-after = ap (λ x. x.0) (apply-sequenced first r d i (omega arith) (omega arith))

  after-CanCount : CanCount (after r d) n
  after-CanCount = (omega arith, omega arith)

length-log : (r : ProjectionRuntime) (ds : List PresentationDelta) → length (log r ds) ≡ length ds
unfolding log
length-log r [] = refl
length-log r (d ∷ ds) = ap suc (length-log (publish r d).0 ds)

-- What the runtime holds after publishing: sound, at the number reached, with the log applied to its
-- projector and at the end of its window.
record Published (r : ProjectionRuntime) (mid : List SequencedEvent) (ds : List PresentationDelta)
    : Type 0 where
  first : ℕ
  before : List SequencedEvent
  sound : IsSound first (publish_all r ds)
  window : (publish_all r ds).sequencer.replay ≡ before ++ (mid ++ log r ds)
  epoch : (publish_all r ds).sequencer.daemon_instance ≡ r.sequencer.daemon_instance
  reached : (publish_all r ds).sequencer.current ≡ r.sequencer.current + length ds
  applied : apply_all r.projector (log r ds) ≡ (publish_all r ds).projector

publish_all-Published :
    (r : ProjectionRuntime) (first : ℕ) (before mid : List SequencedEvent)
    (ds : List PresentationDelta)
    → IsSound first r
    → CanCount r (length ds)
    → r.sequencer.replay ≡ before ++ mid
    → length mid + length ds ≤ r.sequencer.replay_capacity
    → Published r mid ds
unfolding publish_all log apply_all
publish_all-Published r first before mid [] i c w fits = record {
  first = first;
  before = before;
  sound = i;
  window = w ∙ ap (◌++◌ before) (sym (append-nil mid));
  epoch = refl;
  reached = omega arith;
  applied = refl;
}
publish_all-Published r first before mid (d ∷ ds) i c w fits =
    let e = sequenced r.sequencer d in
    let stepped = publish-after r d first (length ds) i c in
    let total : length r.sequencer.replay ≡ length before + length mid =
      rw w (length-append before mid) in
    let kept : (after r d).sequencer.replay ≡ drop (surplus r.sequencer) before ++ (mid ++ e ∷ []) =
      ap (drop (surplus r.sequencer)) (ap (λ es. es ++ e ∷ []) w ∙ append_assoc before mid (e ∷ []))
      ∙ drop-append_le (surplus r.sequencer) before (mid ++ e ∷ []) (omega (arith, total)) in
    let rest =
      publish_all-Published (after r d) (first + surplus r.sequencer)
        (drop (surplus r.sequencer) before) (mid ++ e ∷ []) ds
        (after-IsSound first r d i (omega arith)) (after-CanCount r d first (length ds) i c) kept
        (omega (arith, length-append mid (e ∷ []))) in
    let all : publish_all r (d ∷ ds) ≡ publish_all (after r d) ds =
      ap (λ x. publish_all x ds) stepped in
    let logs : log r (d ∷ ds) ≡ e ∷ log (after r d) ds = ap (λ x. e ∷ log x ds) stepped in
    record {
      first = rest.first;
      before = rest.before;
      sound = rw all rest.sound;
      window =
          rw (all, logs)
            (rest.window ∙ ap (◌++◌ rest.before) (append_assoc mid (e ∷ []) (log (after r d) ds)));
      epoch = rw all rest.epoch;
      reached = rw all (rest.reached ∙ omega arith);
      applied =
          rw (all, logs)
            (ap (λ p. apply_all p (log (after r d) ds)) (apply-after r d first (length ds) i c)
              ∙ rest.applied);
    }

module _ (r : ProjectionRuntime) (first : ℕ) (ds : List PresentationDelta) (i : IsSound first r)
    (done : Published r [] ds) where
  replayed : replay_after (publish_all r ds).sequencer r.projector.cursor ≡ some (log r ds)
  replayed =
      let s = (publish_all r ds).sequencer in
      let at = ap (λ (c : EventCursor). c.sequence) i.in_step in
      let of = ap (λ (c : EventCursor). c.daemon_instance) i.in_step in
      let total =
        length-Runs s.daemon_instance done.first s.replay s.current done.sound.window.runs in
      let parts : length s.replay ≡ length done.before + length (log r ds) =
        ap length done.window ∙ length-append done.before (log r ds) in
      let n = length-log r ds in
      let given =
        replay_after-window done.first s done.sound.window r.projector.cursor (of ∙ sym done.epoch)
          (omega (arith, at, total, parts, n, done.reached)) (omega (arith, at, done.reached)) in
      let skip : r.projector.cursor.sequence - done.first ≡ length done.before =
        omega (arith, at, total, parts, n, done.reached) in
      given.0
      ∙ ap some (
          ap (λ k. drop k s.replay) skip
          ∙ ap (drop (length done.before)) done.window
          ∙ drop-append_length done.before (log r ds))

-- A client holds the snapshot of a sound runtime; the daemon then publishes `ds`, no more than its
-- replay window holds, with event numbers and revisions left for them. The watch at the client's cursor replays exactly the events published, and
-- the client that applies them to its snapshot has the daemon's current state.
pub watch_after_sync :
    (r : ProjectionRuntime) (first : ℕ) (ds : List PresentationDelta)
    → IsSound first r
    → CanCount r (length ds)
    → length ds ≤ r.sequencer.replay_capacity
    → (watch_after (publish_all r ds) (some r.projector.cursor) ≡ ok (replays (log r ds)))
      × (apply_all (from_snapshot (snapshot r.projector)) (log r ds) ≡ (publish_all r ds).projector)
unfolding watch_after
watch_after_sync r first ds i c fits =
    let done =
      publish_all-Published r first r.sequencer.replay [] ds i c (sym (append-nil _))
        (omega arith) in
    let enough : ltb max_replay_batch (length (log r ds)) ≡ false =
      ground (arith, length-log r ds, i.small) in
    (ground (arith, replayed r first ds i done, done.sound.healthy, enough), done.applied)
