-- ===== src/Events/Bus.antt =====
-- crates/caly-application/src/events/bus.rs: the event bus between the stages of the daemon. The two
-- mutexes are taken by one publisher at a time, so a publication is one step on the state.
mod Tests
use caly.Base.{
  ℕ, zero, suc, ◌+◌, ◌-◌, ◌≤◌, ◌≡◌, refl, sym, ap, ◌∙◌, Bool, true, false, List, [], ◌∷◌, ◌++◌,
  length, length-append, length-drop, drop, drop-drop, drop-append_le, map, ltb, if◌then◌else◌,
  arith,
}
use caly.Base.Result.{Result, ok, err}
use caly.Base.Channel.{Channel, TrySendError, full, disconnected, try_send, sync_channel}
use caly.Domain.Text.{Text}
use caly.Events.Sequencer.{cut}
use caly.Events.Sequencer.Replay.{cut-eq-drop}
use mathlib.Core.List.{append_assoc, append-nil}

pub data DaemonEvent : Type 0 where
  subscription_refreshed : (changed : Bool) → DaemonEvent
  config_apply_failed : (reason : Text) → DaemonEvent
  config_applied : (generation : ℕ) → DaemonEvent

pub record RecordedEvent : Type 0 where
  pub at : ℕ
  pub event : DaemonEvent

abbrev pub event_history_cap : ℕ
event_history_cap = 64

abbrev pub event_channel_cap : ℕ
event_channel_cap = 256

pub record EventBus : Type 0 where
  pub subscribers : List (Channel DaemonEvent)
  pub history : List RecordedEvent

abbrev pub new_bus : EventBus
new_bus = record { subscribers = []; history = [] }

unfoldable pub subscribe : EventBus → EventBus
subscribe b = record b { subscribers = b.subscribers ++ sync_channel event_channel_cap ∷ [] }

-- The closure that `retain` runs on a subscriber: a full queue misses the event and stays, a queue
-- whose receiver is gone is dropped.
abbrev pub offered :
    Channel DaemonEvent × Result (TrySendError DaemonEvent) (Unit {0})
    → List (Channel DaemonEvent)
    → List (Channel DaemonEvent)
offered (ch, ok _) rest = ch ∷ rest
offered (ch, err (full _)) rest = ch ∷ rest
offered (ch, err (disconnected _)) rest = rest

unfoldable pub offer_all : List (Channel DaemonEvent) → DaemonEvent → List (Channel DaemonEvent)
offer_all [] event = []
offer_all (ch ∷ chs) event = offered (try_send ch event) (offer_all chs event)

-- `publish`, at the instant `now`.
unfoldable pub publish : EventBus → ℕ → DaemonEvent → EventBus
publish b now event =
    let history = b.history ++ record { at = now; event = event } ∷ [] in
    record {
      subscribers = offer_all b.subscribers event;
      history = cut (length history) event_history_cap history;
    }

unfoldable pub recent : EventBus → List RecordedEvent
recent b = b.history

unfoldable pub publish_all : EventBus → List RecordedEvent → EventBus
publish_all b [] = b
publish_all b (e ∷ es) = publish_all (publish b e.at e.event) es

-- The last `event_history_cap` entries.
abbrev pub latest : List RecordedEvent → List RecordedEvent
latest es = drop (length es - event_history_cap) es

publish-latest :
    (before : List RecordedEvent) (e : RecordedEvent)
    → drop (length (latest before ++ e ∷ []) - event_history_cap) (latest before ++ e ∷ [])
      ≡ latest (before ++ e ∷ [])
publish-latest before e =
    let n = length-append before (e ∷ []) in
    let k = length-append (latest before) (e ∷ []) in
    let kept = length-drop (length before - event_history_cap) before in
    ap (drop (length (latest before ++ e ∷ []) - event_history_cap))
      (sym (drop-append_le (length before - event_history_cap) before (e ∷ []) (omega arith)))
    ∙ drop-drop (length (latest before ++ e ∷ []) - event_history_cap)
        (length before - event_history_cap) (before ++ e ∷ [])
    ∙ ap (λ m. drop m (before ++ e ∷ [])) (omega (arith, n, k, kept))

publish_all-latest :
    (before es : List RecordedEvent) (b : EventBus)
    → b.history ≡ latest before
    → (publish_all b es).history ≡ latest (before ++ es)
unfolding publish_all publish
publish_all-latest before [] b h = h ∙ ap latest (sym (append-nil before))
publish_all-latest before (e ∷ es) b h =
    publish_all-latest (before ++ e ∷ []) es (publish b e.at e.event) (
      rw h (
        cut-eq-drop (length (latest before ++ e ∷ [])) event_history_cap (latest before ++ e ∷ [])
          (omega arith)
        ∙ publish-latest before e))
    ∙ ap latest (append_assoc before (e ∷ []) es)

-- After any events published on a new bus, the history holds the last 64 of them, oldest first, each
-- with the instant of its publication.
pub recent-publish_all : (es : List RecordedEvent) → recent (publish_all new_bus es) ≡ latest es
unfolding recent
recent-publish_all es = publish_all-latest [] es new_bus refl
