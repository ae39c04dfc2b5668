-- ===== src/Application/Handlers/Platform.antt =====
-- crates/caly-application/src/actors/platform_handler.rs.
use caly.Base.{Bool, true, some, [], ◌∷◌}
use caly.Base.Result.{Result, ok, err}
use caly.Domain.State.{DesiredState, PlatformEffectView, desired_replaced, platform_replaced}
use caly.Operations.Command.{Command, set_tun, set_system_proxy, set_system_proxy_pac}
use caly.Application.Routing.{RoutedCommand, platform_actor}
use caly.Application.Reporting.{ActorFailure}
use caly.Application.Ports.{Backends, Owned}
use caly.Application.Actors.{Answer, Handled, wrong_command, map_ok, guarded}

abbrev pub with_system_proxy : DesiredState → Bool → DesiredState
with_system_proxy d requested = record d { system_proxy_requested = requested }

abbrev pub with_tun_requested : DesiredState → Bool → DesiredState
with_tun_requested d requested = record d { tun_requested = requested }

-- The cell after `commit_desired`, which is also what it returns.
abbrev pub commit_desired :
    DesiredState
    → Result ActorFailure PlatformEffectView
    → (DesiredState → DesiredState)
    → DesiredState
commit_desired desired (ok _) update = update desired
commit_desired desired (err _) update = desired

module _ {ℓ} {W : Type ℓ} where
  -- The backend's answer, with the intent committed and both slices published (`finish`).
  abbrev pub effect_answer :
      Owned W
      → (DesiredState → DesiredState)
      → W × Result ActorFailure PlatformEffectView
      → Answer W
  effect_answer s update (w, outcome) =
      let desired = commit_desired s.desired outcome update in
      some (
        ok (
          record s { backend = w; desired = desired },
          map_ok (λ state. desired_replaced desired ∷ platform_replaced state ∷ []) outcome,
        ))

module _ {ℓ} {W : Type ℓ} (ports : Backends W) where
  abbrev pub platform_answer : Owned W → Command → Answer W
  platform_answer s (set_system_proxy enabled) =
      effect_answer s (λ d. with_system_proxy d enabled)
        (ports.platform.engage_proxy enabled s.backend)
  platform_answer s (set_system_proxy_pac url) =
      effect_answer s (λ d. with_system_proxy d true) (ports.platform.engage_pac url s.backend)
  platform_answer s (set_tun enabled) =
      effect_answer s (λ d. with_tun_requested d enabled) (ports.tun.engage_tun enabled s.backend)
  platform_answer s _ = some (err wrong_command)

  unfoldable pub handle_platform : Owned W → RoutedCommand → Handled W
  handle_platform s routed =
      guarded platform_actor s routed (platform_answer s routed.envelope.command)
