-- ===== src/Projection/Runtime/Watch.antt =====
-- What `watch_after` of `runtime.rs` answers to each cursor of a client.
use caly.Base.{◌<◌, ◌≢◌, ◌⊎◌, ℕ}
use caly.Domain.Event.{EventCursor}
use caly.Projection.Runtime.{ProjectionRuntime}

-- A cursor of another epoch, ahead of the stream, or behind the window that starts after `first`.
abbrev pub Outside : ℕ → ProjectionRuntime → EventCursor → Type 0
Outside first r c =
    (c.daemon_instance ≢ r.sequencer.daemon_instance)
    ⊎ (r.sequencer.current < c.sequence)
    ⊎ (c.sequence < first)
