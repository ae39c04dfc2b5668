-- ===== src/Application/Handlers/Subscription.antt =====
-- crates/caly-application/src/actors/subscription_handler.rs.
use caly.Base.{ℕ, some, [], ◌∷◌, if◌then◌else◌}
use caly.Base.Result.{Result, ok, err}
use caly.Domain.State.{nodes_replaced}
use caly.Events.Bus.{publish, subscription_refreshed}
use caly.Operations.Command.{Command, refresh_subscription}
use caly.Application.Routing.{RoutedCommand, subscription_actor}
use caly.Application.Reporting.{ActorFailure}
use caly.Application.Ports.{Backends, Owned, RefreshOutcome}
use caly.Application.Actors.{Answer, Handled, wrong_command, left, guarded}

module _ {ℓ} {W : Type ℓ} where
  -- The outcome of a refresh that ends at `now`: the event, and the nodes where they changed.
  abbrev pub refreshed : ℕ → Owned W → W × Result ActorFailure RefreshOutcome → Answer W
  refreshed now s (w, err f) = some (ok (left s w, err f))
  refreshed now s (w, ok refresh) = some (
      ok (
        record s {
          backend = w;
          events = publish s.events now (subscription_refreshed refresh.changed);
        },
        ok (if refresh.changed then nodes_replaced refresh.nodes ∷ [] else []),
      ))

module _ {ℓ} {W : Type ℓ} (ports : Backends W) where
  abbrev pub subscription_answer : ℕ → Owned W → Command → Answer W
  subscription_answer now s (refresh_subscription subscription_id force scheduled) =
      refreshed now s (
        ports.subscription.refresh subscription_id
          (record { is_forced = force; is_scheduled = scheduled }) s.backend)
  subscription_answer now s _ = some (err wrong_command)

  unfoldable pub handle_subscription : ℕ → Owned W → RoutedCommand → Handled W
  handle_subscription now s routed =
      guarded subscription_actor s routed (subscription_answer now s routed.envelope.command)
