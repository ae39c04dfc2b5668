-- ===== src/Projection/Tests.antt =====
-- Runs of the sequencer and the projection runtime at concrete inputs.
use caly.Base.{◌↔◌, ◌≢◌, ◌<◌, ◌≡◌, refl, ℕ, true, false, none, some, List, [], ◌∷◌, arith}
use caly.Base.Result.{ok}
use caly.Domain.Event
use caly.Domain.Event.{EventCursor, checked_next, classify_cursor, u64_max}
use caly.Projection.Projector.Acceptance.{apply-classify_cursor}
use caly.Domain.State.{
  PresentationDelta, PresentationSnapshot, ObservedState, observed_replaced, ProxyMode,
  CoreRunState,
}
use caly.Events.Sequencer.{
  SequencedEvent, EventSequencer, try_publish, replay_after, projector_backpressure, new_at,
}
use caly.Events.Sequencer.Replay
use caly.Events.Sequencer.Replay.{Runs, replay_after-window}
use caly.Events.Sequencer.Publish.{try_publish_refused}
use caly.Projection.Projector.{apply, from_snapshot, snapshot}
use caly.Projection.Runtime.{
  ProjectionRuntime, new, publish, watch_after, replays, recover_from_snapshot,
}
use caly.Projection.Runtime.Publish.{
  IsSound, after, publish_sound, new-IsSound, recover_from_snapshot-IsSound,
}
use caly.Projection.Runtime.Sync.{apply_all, publish_all, log, watch_after_sync}

abbrev idle : ObservedState
idle = record {
  upload_bytes_per_second = 0;
  download_bytes_per_second = 0;
  active_connections = 0;
  telemetry_dropped = 0;
  core_restart_count = 0;
  core_restart_backoff_ms = 0;
}

abbrev start : PresentationSnapshot
start = record {
  daemon_instance = 7;
  revision = 0;
  cursor = record { daemon_instance = 7; sequence = 0 };
  desired = record {
    mode = ProxyMode.direct;
    selected_node = none;
    active_subscription = none;
    tun_requested = false;
    system_proxy_requested = false;
  };
  applied = record {
    core = none;
    run_state = CoreRunState.stopped;
    selected_node = none;
    config_generation = none;
  };
  observed = idle;
  platform = record {
    proxy_engaged = false;
    tun_engaged = false;
    recovery_pending = false;
    degraded_reason = none;
  };
  capabilities = [];
  nodes = [];
  proxy_groups = [];
}

abbrev sequencer : EventSequencer
sequencer = record {
  daemon_instance = 7;
  current = 0;
  replay = [];
  replay_capacity = 2;
  projector = record { queue = []; capacity = 1; is_open = true };
}

abbrev runtime : ProjectionRuntime
runtime = record {
  sequencer = sequencer;
  projector = from_snapshot start;
  channel_capacity = 1;
  replay_capacity = 2;
  poisoned = false;
  live = [];
}

runtime-IsSound : IsSound 0 runtime
runtime-IsSound = new-IsSound start 1 2 runtime (omega arith) (unfold new new_at in refl)

abbrev deltas : List PresentationDelta
deltas =
    observed_replaced (record idle { active_connections = 3 })
    ∷ observed_replaced (record idle { active_connections = 4 })
    ∷ []

watch_after_sync_example :
    (watch_after (publish_all runtime deltas) (some runtime.projector.cursor)
      ≡ ok (replays (log runtime deltas)))
    × (apply_all (from_snapshot (snapshot runtime.projector)) (log runtime deltas)
        ≡ (publish_all runtime deltas).projector)
watch_after_sync_example =
    watch_after_sync runtime 0 deltas runtime-IsSound (omega arith) (omega arith)

publish_sound_example :
    publish runtime (observed_replaced idle)
    ≡ (after runtime (observed_replaced idle), ok (record { daemon_instance = 7; sequence = 1 }))
publish_sound_example =
    publish_sound 0 runtime (observed_replaced idle) runtime-IsSound (omega arith) (omega arith)

recover_from_snapshot-IsSound_example :
    let broken = record runtime { poisoned = true } in
    ((recover_from_snapshot broken start).1 ≡ ok tt)
    × IsSound 0 (recover_from_snapshot broken start).0
    × ((recover_from_snapshot broken start).0.projector ≡ from_snapshot start)
recover_from_snapshot-IsSound_example =
    recover_from_snapshot-IsSound (record runtime { poisoned = true }) start refl (omega arith)
      (omega arith) (omega arith) (omega arith)

abbrev event : ℕ → SequencedEvent
event n = record {
  cursor = record { daemon_instance = 7; sequence = n };
  event = observed_replaced idle;
}

-- A window that has lost its first event.
abbrev later : EventSequencer
later = record sequencer { current = 3; replay = event 2 ∷ event 3 ∷ [] }

later-IsSound : Replay.IsSound 1 later
later-IsSound = record {
  runs = (refl, (refl, refl));
  bounded = omega arith;
  retains = omega arith;
  representable = omega arith;
}

replay_after-window_example :
    (replay_after later (record { daemon_instance = 7; sequence = 2 }) ≡ some (event 3 ∷ []))
    × Runs 7 2 (event 3 ∷ []) 3
replay_after-window_example =
    replay_after-window 1 later later-IsSound (record { daemon_instance = 7; sequence = 2 }) refl
      (omega arith) (omega arith)

-- A client that comes from before the daemon's restart.
abbrev elsewhere : EventCursor
elsewhere = record { daemon_instance = 8; sequence = 0 }

-- A projector that does not keep up.
abbrev blocked : EventSequencer
blocked = record sequencer {
  projector = record { queue = event 0 ∷ []; capacity = 1; is_open = true };
}

try_publish_refused_example : (try_publish blocked (observed_replaced idle)).0 ≡ blocked
try_publish_refused_example =
    try_publish_refused blocked (observed_replaced idle)
      (projector_backpressure (observed_replaced idle)) (unfold try_publish checked_next in refl)

apply-classify_cursor_example :
    (((apply (from_snapshot start) (event 1)).1 ≡ ok tt)
      ↔ ((classify_cursor start.cursor (event 1).cursor ≡ Event.apply) × (0 < u64_max)))
    × (classify_cursor start.cursor (event 1).cursor ≢ Event.apply
        → (apply (from_snapshot start) (event 1)).0 ≡ from_snapshot start)
apply-classify_cursor_example = apply-classify_cursor (from_snapshot start) (event 1) refl
