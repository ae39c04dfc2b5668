-- ===== src/Operations/Command.antt =====
-- crates/caly-application/src/command_bus/mod.rs: commands, their envelope, and the bounded queue
-- that admits them. Identities are the numbers that their 16 bytes spell; names and URLs are texts.
use caly.Base.{ℕ, Bool, true, false, List, [], ◌∷◌, ◌++◌, length, ltb, ◌==◌, if◌then◌else◌}
use caly.Base.Result.{Result, ok, err}
use caly.Domain.State.{CoreKind, ProxyMode}
use caly.Domain.Text.{Text, codes}
use native.Mathlib.Decide.{ℕ_discrete}

pub data CoreAction : Type 0 where
  start stop restart : CoreAction

pub data Command : Type 0 where
  apply_config : (candidate_id : ℕ) → Command
  switch_core : (target : CoreKind) (action : CoreAction) → Command
  select_proxy : (node_id : ℕ) → Command
  select_proxy_group : (group member : Text) → Command
  set_mode : (mode : ProxyMode) → Command
  set_tun set_system_proxy : (enabled : Bool) → Command
  set_system_proxy_pac : (url : Text) → Command
  refresh_subscription : (subscription_id : ℕ) (force scheduled : Bool) → Command
  close_all_connections stop_daemon reload_config : Command

-- The derived `PartialEq` decides equality.
pub Command-discrete : Discrete Command
Command-discrete = hlevel ℕ_discrete

pub record CommandEnvelope : Type 0 where
  pub operation_id : ℕ
  pub command : Command

abbrev pub supports_running_cancellation : Command → Bool
supports_running_cancellation (apply_config _) = true
supports_running_cancellation (set_mode _) = true
supports_running_cancellation (set_tun _) = true
supports_running_cancellation _ = false

unfoldable pub kind : Command → Text
kind (apply_config _) = codes "config.apply"
kind (switch_core _ _) = codes "core.switch"
kind (select_proxy _) = codes "proxy.select"
kind (select_proxy_group _ _) = codes "proxy.group.select"
kind (set_mode _) = codes "proxy.mode.set"
kind (set_tun _) = codes "tun.set"
kind (set_system_proxy _) = codes "system_proxy.set"
kind (set_system_proxy_pac _) = codes "system_proxy.pac"
kind (refresh_subscription _ _ _) = codes "subscription.refresh"
kind close_all_connections = codes "connections.close_all"
kind stop_daemon = codes "daemon.stop"
kind reload_config = codes "config.reload"

pub data CommandIngressError : Type 0 where
  invalid_capacity : CommandIngressError
  resource_exhausted : CommandEnvelope → CommandIngressError
  closed : CommandEnvelope → CommandIngressError

-- The channel behind `CommandIngress` and `CommandReceiver`: `is_open` while the receiver lives.
pub record CommandBus : Type 0 where
  pub queue : List CommandEnvelope
  pub capacity : ℕ
  pub is_open : Bool

unfoldable pub command_bus : ℕ → Result CommandIngressError CommandBus
command_bus capacity =
    if capacity == 0
    then err invalid_capacity
    else ok (record { queue = []; capacity = capacity; is_open = true })

-- `SyncSender::try_send` through `CommandIngress::try_submit`.
unfoldable pub try_submit :
    CommandBus → CommandEnvelope → CommandBus × Result CommandIngressError (Unit {0})
try_submit bus envelope =
    if bus.is_open
    then (if ltb (length bus.queue) bus.capacity
        then (record bus { queue = bus.queue ++ envelope ∷ [] }, ok tt)
        else (bus, err (resource_exhausted envelope)))
    else (bus, err (closed envelope))

pub data CommandReceiveError : Type 0 where
  timed_out channel_closed invalid_timeout : CommandReceiveError

abbrev take_front :
    CommandBus
    → List CommandEnvelope
    → Bool
    → CommandBus × Result CommandReceiveError CommandEnvelope
take_front bus (e ∷ rest) senders = (record bus { queue = rest }, ok e)
take_front bus [] true = (bus, err timed_out)
take_front bus [] false = (bus, err channel_closed)

-- `CommandReceiver::receive_timeout`: an empty queue waits for the timeout, or ends at once where no
-- ingress handle is left (`senders`).
unfoldable pub receive_timeout :
    CommandBus → ℕ → Bool → CommandBus × Result CommandReceiveError CommandEnvelope
receive_timeout bus timeout senders =
    if timeout == 0 then (bus, err invalid_timeout) else take_front bus bus.queue senders
