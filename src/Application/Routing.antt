-- ===== src/Application/Routing.antt =====
-- crates/caly-application/src/routing.rs and routing_fanout.rs: the owner of each command, and the
-- five bounded mailboxes that commands are sent to. A mailbox is the channel of its two ends
-- (crates/caly-application/src/runtime/actor_loop.rs).
pub mod Laws
use caly.Base.{ℕ, Bool, ◌==◌, List, []}
use caly.Base.Result.{Result, ok, err, map_err}
use caly.Base.Channel.{Channel, TrySendError, full, disconnected, try_send}
use caly.Operations.Command.{
  Command, CommandEnvelope, apply_config, switch_core, select_proxy, select_proxy_group, set_mode,
  set_tun, set_system_proxy, set_system_proxy_pac, refresh_subscription, close_all_connections,
  stop_daemon, reload_config,
}
use caly.Operations.Cancellation.{OperationCancellationToken}

pub data CommandTarget : Type 0 where
  core_lifecycle config_actor core_actor subscription_actor platform_actor : CommandTarget

-- The position of a target in its enum, which the derived `PartialEq` compares.
abbrev pub position : CommandTarget → ℕ
position core_lifecycle = 0
position config_actor = 1
position core_actor = 2
position subscription_actor = 3
position platform_actor = 4

abbrev pub same_target : CommandTarget → CommandTarget → Bool
same_target a b = position a == position b

-- `cancellation` is the cell that the operation's record shares, as its reader finds it.
pub record RoutedCommand : Type 0 where
  pub target : CommandTarget
  pub envelope : CommandEnvelope
  pub cancellation : OperationCancellationToken

pub data RouteDispatchError : Type 0 where
  resource_exhausted : RoutedCommand → RouteDispatchError
  target_closed : RoutedCommand → RouteDispatchError

-- The `match` of `route`.
abbrev pub owner : Command → CommandTarget
owner (apply_config _) = config_actor
owner (switch_core _ _) = core_lifecycle
owner (set_tun _) = platform_actor
owner (select_proxy _) = core_actor
owner (select_proxy_group _ _) = core_actor
owner close_all_connections = core_actor
owner (set_mode _) = core_actor
owner (refresh_subscription _ _ _) = subscription_actor
owner (set_system_proxy _) = platform_actor
owner (set_system_proxy_pac _) = platform_actor
owner stop_daemon = core_lifecycle
owner reload_config = config_actor

unfoldable pub route : CommandEnvelope → OperationCancellationToken → RoutedCommand
route envelope cancellation = record {
  target = owner envelope.command;
  envelope = envelope;
  cancellation = cancellation;
}

pub data MailboxSendError {ℓ} (M : Type ℓ) : Type ℓ where
  mailbox_full : M → MailboxSendError M
  mailbox_closed : M → MailboxSendError M

abbrev pub mailbox_error {ℓ} : {M : Type ℓ} → TrySendError M → MailboxSendError M
mailbox_error (full value) = mailbox_full value
mailbox_error (disconnected value) = mailbox_closed value

-- `ActorIngress::try_send`.
abbrev pub send {ℓ} :
    {M : Type ℓ} → Channel M → M → Channel M × Result (MailboxSendError M) (Unit {0})
send ch message = let (ch', sent) = try_send ch message in (ch', map_err mailbox_error sent)

pub record ActorCommandFanout : Type 0 where
  pub lifecycle_box : Channel RoutedCommand
  pub config_box : Channel RoutedCommand
  pub core_box : Channel RoutedCommand
  pub subscription_box : Channel RoutedCommand
  pub platform_box : Channel RoutedCommand

-- The mailbox of a target, and the fanout with that mailbox replaced.
abbrev pub mailbox : ActorCommandFanout → CommandTarget → Channel RoutedCommand
mailbox f core_lifecycle = f.lifecycle_box
mailbox f config_actor = f.config_box
mailbox f core_actor = f.core_box
mailbox f subscription_actor = f.subscription_box
mailbox f platform_actor = f.platform_box

abbrev pub with_mailbox :
    ActorCommandFanout → CommandTarget → Channel RoutedCommand → ActorCommandFanout
with_mailbox f core_lifecycle ch = record f { lifecycle_box = ch }
with_mailbox f config_actor ch = record f { config_box = ch }
with_mailbox f core_actor ch = record f { core_box = ch }
with_mailbox f subscription_actor ch = record f { subscription_box = ch }
with_mailbox f platform_actor ch = record f { platform_box = ch }

abbrev pub dispatch_error : MailboxSendError RoutedCommand → RouteDispatchError
dispatch_error (mailbox_full value) = resource_exhausted value
dispatch_error (mailbox_closed value) = target_closed value

unfoldable pub try_dispatch :
    ActorCommandFanout → RoutedCommand → ActorCommandFanout × Result RouteDispatchError (Unit {0})
try_dispatch f command =
    let (ch, sent) = send (mailbox f command.target) command in
    (with_mailbox f command.target ch, map_err dispatch_error sent)
