-- ===== src/Application/Handlers/Tests.antt =====
-- Backends whose core never restarts, on the list of published generations.
use caly.Base.{ℕ, ◌≡◌, refl, true, false, none, some, List, [], ◌∷◌, length, take, ltb→lt}
use caly.Base.Result.{ok, err}
use caly.Base.Channel.{sync_channel}
use caly.Domain.Text.{codes}
use caly.Domain.State.{ObservedState, PlatformEffectView, stopped_state, rule, mihomo}
use caly.Events.Bus.{new_bus}
use caly.Operations.Command.{CommandEnvelope, set_tun, reload_config, apply_config}
use caly.Operations.Cancellation.{new_token}
use caly.Application.Routing.{
  RoutedCommand, ActorCommandFanout, route, mailbox, config_actor, try_dispatch,
}
use caly.Application.Routing.Laws.{dispatch_all, dispatch_all-mailbox, extended, owned_by}
use caly.Application.Reporting.{ActorFailure, infrastructure_kind}
use caly.Application.Ports.{Backends, Owned, ConfigActorPort}
use caly.Application.Handlers.PortLaws.{FittingFailures}
use caly.Application.Handlers.Reports.{Reports, handle-reports}

abbrev exited : ActorFailure
exited = record {
  kind = infrastructure_kind;
  message = codes "core exited";
  suggested_action = codes "read its log";
}

abbrev quiet_effect : PlatformEffectView
quiet_effect = record {
  proxy_engaged = false;
  tun_engaged = false;
  recovery_pending = false;
  degraded_reason = none;
}

abbrev idle : ObservedState
idle = record {
  upload_bytes_per_second = 0;
  download_bytes_per_second = 0;
  active_connections = 0;
  telemetry_dropped = 0;
  core_restart_count = 0;
  core_restart_backoff_ms = 0;
}

abbrev newest_dropped : List ℕ → List ℕ
newest_dropped [] = []
newest_dropped (g ∷ gs) = gs

abbrev config_port : ConfigActorPort (List ℕ)
config_port = record {
  parse_and_render = λ c w. (w, ok (record { candidate = c; prepared_generation = length w }));
  discard_prepared = λ p w. (w, ok tt);
  commit_candidate = λ p w. (
    p.prepared_generation ∷ w,
    ok (record { candidate = p.candidate; generation = p.prepared_generation; unchanged = false }),
  );
  rollback_commit = λ c w. (newest_dropped w, ok tt);
  current_contents = λ w. none;
}

abbrev pub backends : Backends (List ℕ)
backends = record {
  lifecycle = record {
    stop_core = λ w. (w, ok stopped_state);
    restart_core = λ w. (w, err exited);
    hot_reload = λ b t w. (w, ok tt);
    switch_to = λ k w. (w, ok stopped_state);
  };
  config = config_port;
  core = record {
    choose_proxy = λ n w. (w, ok stopped_state);
    choose_proxy_group = λ g m w. (w, ok stopped_state);
    close_connections = λ w. (w, ok idle);
    change_mode = λ m w. (w, ok stopped_state);
    list_proxy_groups = λ t w. (w, ok []);
  };
  platform = record {
    engage_proxy = λ b w. (w, ok quiet_effect);
    engage_pac = λ u w. (w, ok quiet_effect);
  };
  tun = record { engage_tun = λ b w. (w, ok quiet_effect) };
  subscription = record { refresh = λ i m w. (w, ok (record { nodes = []; changed = false })) };
  active_core = λ w. some mihomo;
}

pub fitting : FittingFailures backends
fitting = record {
  stop_fits = λ w f e. cc;
  switch_fits = λ k w f e. cc;
  render_fits = λ c w f e. cc;
  commit_fits = λ p w f e. cc;
  choose_fits = λ n w f e. cc;
  choose_group_fits = λ g m w f e. cc;
  close_fits = λ w f e. cc;
  mode_fits = λ m w f e. cc;
  proxy_fits = λ b w f e. cc;
  pac_fits = λ u w f e. cc;
  tun_fits = λ b w f e. cc;
  refresh_fits = λ i m w f e. cc;
}

abbrev pub owned : Owned (List ℕ)
owned = record {
  backend = 4 ∷ [];
  desired = record {
    mode = rule;
    selected_node = none;
    active_subscription = none;
    tun_requested = false;
    system_proxy_requested = false;
  };
  events = new_bus;
  results = sync_channel 2;
}

abbrev envelope : CommandEnvelope
envelope = record { operation_id = 9; command = reload_config }

handle-reports_example : Reports backends config_actor 0 owned (route envelope new_token)
handle-reports_example =
    handle-reports backends fitting 0 owned envelope new_token refl (ltb→lt 0 2 refl)

abbrev boxes : ActorCommandFanout
boxes = record {
  lifecycle_box = sync_channel 1;
  config_box = sync_channel 1;
  core_box = sync_channel 1;
  subscription_box = sync_channel 1;
  platform_box = sync_channel 1;
}

abbrev commands : List RoutedCommand
commands =
    route envelope new_token
    ∷ route (record { operation_id = 10; command = set_tun true }) new_token
    ∷ route (record { operation_id = 11; command = apply_config 3 }) new_token
    ∷ []

dispatch_all-mailbox_example :
    mailbox (dispatch_all boxes commands) config_actor
    ≡ extended (sync_channel 1) (take 1 (owned_by config_actor commands))
dispatch_all-mailbox_example = dispatch_all-mailbox config_actor commands boxes refl

-- The second command for the config actor found its mailbox full.
runs_as_said : (dispatch_all boxes commands).config_box.queue ≡ route envelope new_token ∷ []
unfolding dispatch_all try_dispatch route
runs_as_said = refl
