-- ===== src/Events/Bus/Tests.antt =====
-- Runs of the event bus at concrete inputs.
use caly.Base.{◌≡◌, true, List, [], ◌∷◌}
use caly.Events.Bus.{
  RecordedEvent, config_applied, subscription_refreshed, new_bus, publish_all, recent,
  recent-publish_all,
}

abbrev two_events : List RecordedEvent
two_events =
    record { at = 5; event = subscription_refreshed true }
    ∷ record { at = 9; event = config_applied 3 }
    ∷ []

recent-publish_all_example : recent (publish_all new_bus two_events) ≡ two_events
recent-publish_all_example = recent-publish_all two_events
