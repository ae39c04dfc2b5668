-- ===== src/Application/Handlers/Deliver.antt =====
-- The owner actors side by side: a routed command reaches the handler that composition puts behind
-- the mailbox of its target (spawn_handlers of crates/caly-composition/src/handlers.rs).
use caly.Base.{ℕ}
use caly.Application.Routing.{
  CommandTarget, RoutedCommand, core_lifecycle, config_actor, core_actor, subscription_actor,
  platform_actor,
}
use caly.Application.Ports.{Backends, Owned}
use caly.Application.Actors.{Handled}
use caly.Application.Handlers.Lifecycle.{handle_lifecycle}
use caly.Application.Handlers.Core.{handle_core}
use caly.Application.Handlers.Config.{handle_config}
use caly.Application.Handlers.Platform.{handle_platform}
use caly.Application.Handlers.Subscription.{handle_subscription}

module _ {ℓ} {W : Type ℓ} (ports : Backends W) where
  -- The handler of an owner, at the instant `now`.
  unfoldable pub handle_at : CommandTarget → ℕ → Owned W → RoutedCommand → Handled W
  handle_at core_lifecycle now s routed = handle_lifecycle ports s routed
  handle_at config_actor now s routed = handle_config ports s routed
  handle_at core_actor now s routed = handle_core ports s routed
  handle_at subscription_actor now s routed = handle_subscription ports now s routed
  handle_at platform_actor now s routed = handle_platform ports s routed
