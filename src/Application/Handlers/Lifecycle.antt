-- ===== src/Application/Handlers/Lifecycle.antt =====
-- crates/caly-application/src/actors/lifecycle_handler.rs.
use caly.Base.{some}
use caly.Base.Result.{ok, err}
use caly.Domain.Text.{Text, codes}
use caly.Domain.State.{CoreKind, xray, applied_replaced}
use caly.Operations.Command.{
  Command, CoreAction, apply_config, switch_core, set_mode, set_tun, stop_daemon,
}
use caly.Application.Routing.{RoutedCommand, core_lifecycle}
use caly.Application.Reporting.{unsupported_kind, clamped}
use caly.Application.Ports.{Backends, Owned}
use caly.Application.Actors.{Answer, Handled, wrong_command, outcome_of, guarded}
use mathlib.Core.Option

module _ {ℓ} {W : Type ℓ} where
  -- `Err(unsupported_failure(message, action))` as an outcome.
  unfoldable pub unsupported : Owned W → Text → Text → Answer W
  unsupported s message action =
      Option.map (λ f. ok (s, err f)) (clamped unsupported_kind message action)

  abbrev pub not_wired : Owned W → Answer W
  not_wired s =
      unsupported s (codes "coordinator command is not wired into the runtime")
        (codes "use a currently advertised command and inspect daemon capabilities")

module _ {ℓ} {W : Type ℓ} (ports : Backends W) where
  abbrev pub switch_core_answer : Owned W → CoreKind → CoreAction → Answer W
  switch_core_answer s xray action =
      unsupported s (codes "Xray lifecycle is not implemented")
        (codes "select Mihomo or sing-box until the Xray backend is complete")
  switch_core_answer s _ CoreAction.stop =
      outcome_of s applied_replaced (ports.lifecycle.stop_core s.backend)
  switch_core_answer s target _ =
      outcome_of s applied_replaced (ports.lifecycle.switch_to target s.backend)

  abbrev pub lifecycle_answer : Owned W → Command → Answer W
  lifecycle_answer s (switch_core target action) = switch_core_answer s target action
  lifecycle_answer s (apply_config _) = not_wired s
  lifecycle_answer s (set_mode _) = not_wired s
  lifecycle_answer s (set_tun _) = not_wired s
  lifecycle_answer s stop_daemon =
      outcome_of s applied_replaced (ports.lifecycle.stop_core s.backend)
  lifecycle_answer s _ = some (err wrong_command)

  unfoldable pub handle_lifecycle : Owned W → RoutedCommand → Handled W
  handle_lifecycle s routed =
      guarded core_lifecycle s routed (lifecycle_answer s routed.envelope.command)
