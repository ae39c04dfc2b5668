-- ===== src/Application/Handlers/Core.antt =====
-- crates/caly-application/src/actors/core_handler.rs.
use caly.Base.{ℕ, some, List, [], ◌∷◌, ◌++◌}
use caly.Base.Result.{Result, ok, err}
use caly.Domain.State.{
  DesiredState, PresentationDelta, ProxyMode, AppliedState, ProxyGroupView, applied_replaced,
  observed_replaced, desired_replaced, groups_replaced,
}
use caly.Operations.Command.{
  Command, select_proxy, select_proxy_group, close_all_connections, set_mode,
}
use caly.Application.Routing.{RoutedCommand, core_actor}
use caly.Application.Reporting.{ActorFailure}
use caly.Application.Ports.{Backends, Owned}
use caly.Application.Actors.{Answer, Handled, wrong_command, map_ok, left, outcome_of, guarded}

-- The deadline of the listing of groups, in milliseconds.
abbrev pub list_groups_timeout : ℕ
list_groups_timeout = 2000

abbrev pub with_mode : DesiredState → ProxyMode → DesiredState
with_mode d mode = record d { mode = mode }

abbrev pub with_groups :
    List PresentationDelta → Result ActorFailure (List ProxyGroupView) → List PresentationDelta
with_groups deltas (ok (g ∷ gs)) = deltas ++ groups_replaced (g ∷ gs) ∷ []
with_groups deltas _ = deltas

module _ {ℓ} {W : Type ℓ} (ports : Backends W) where
  -- The state and deltas after `refresh_groups`.
  abbrev pub refresh_groups : Owned W → List PresentationDelta → Owned W × List PresentationDelta
  refresh_groups s deltas =
      let (w, groups) = ports.core.list_proxy_groups list_groups_timeout s.backend in
      (left s w, with_groups deltas groups)

  -- A selection's outcome, with the groups refreshed where it succeeded.
  abbrev pub selected : Owned W → W × Result ActorFailure AppliedState → Answer W
  selected s (w, ok state) =
      let (s', deltas) = refresh_groups (left s w) (applied_replaced state ∷ []) in
      some (ok (s', ok deltas))
  selected s (w, err f) = some (ok (left s w, err f))

  -- `SetMode` replaces the desired state before the backend answers.
  abbrev pub mode_answer : Owned W → ProxyMode → Answer W
  mode_answer s mode =
      let new_desired = with_mode s.desired mode in
      let (w, r) = ports.core.change_mode mode s.backend in
      some (
        ok (
          record s { backend = w; desired = new_desired },
          map_ok (λ state. desired_replaced new_desired ∷ applied_replaced state ∷ []) r,
        ))

  abbrev pub core_answer : Owned W → Command → Answer W
  core_answer s (select_proxy node_id) = selected s (ports.core.choose_proxy node_id s.backend)
  core_answer s (select_proxy_group group member) =
      selected s (ports.core.choose_proxy_group group member s.backend)
  core_answer s close_all_connections =
      outcome_of s observed_replaced (ports.core.close_connections s.backend)
  core_answer s (set_mode mode) = mode_answer s mode
  core_answer s _ = some (err wrong_command)

  unfoldable pub handle_core : Owned W → RoutedCommand → Handled W
  handle_core s routed = guarded core_actor s routed (core_answer s routed.envelope.command)
