-- ===== src/Application/Handlers/Config.antt =====
-- crates/caly-application/src/actors/config_command_handler.rs: the transaction that renders a
-- candidate, commits it, and reloads the active core.
use caly.Base.{ℕ, true, false, Option, none, some, List, [], ◌∷◌, ◌++◌}
use caly.Base.Result.{Result, ok, err}
use caly.Domain.Text.{Text, codes}
use caly.Domain.State.{
  AppliedState, AppliedStateError, CoreKind, mihomo, running, new_applied, applied_replaced,
}
use caly.Operations.Command.{Command, apply_config, reload_config}
use caly.Application.Routing.{RoutedCommand, config_actor}
use caly.Application.Reporting.{ActorFailure, infrastructure_failure, display}
use caly.Application.Ports.{Backends, Owned, PreparedConfig, CommittedConfig}
use caly.Application.Actors.{Answer, Handled, wrong_command, left, guarded}
use mathlib.Core.Option

-- HOT_RELOAD_TIMEOUT, in milliseconds.
abbrev pub hot_reload_timeout : ℕ
hot_reload_timeout = 5000

-- The failure's message: the restart's error, and the rollback's where that failed too.
abbrev pub reload_message : ActorFailure → Result ActorFailure (Unit {0}) → Text
reload_message error (ok _) =
    codes "config apply failed: the core could not reload the new config ("
    ++ display error
    ++ codes "); previous generation restored"
reload_message error (err rollback) =
    codes "config apply failed: the core could not reload the new config ("
    ++ display error
    ++ codes "); previous generation restored"
    ++ codes "; rollback also failed: "
    ++ display rollback

-- `map_or` over the lock of the active core.
abbrev pub active_or : Option CoreKind → CoreKind
active_or none = mihomo
active_or (some kind) = kind

module _ {ℓ} {W : Type ℓ} (ports : Backends W) where
  abbrev pub failed_with : Owned W → Option ActorFailure → Answer W
  failed_with s failure = Option.map (λ f. ok (s, err f)) failure

  abbrev pub state_answer : Owned W → Result AppliedStateError AppliedState → Answer W
  state_answer s (ok state) = some (ok (s, ok (applied_replaced state ∷ [])))
  state_answer s (err _) = failed_with s (
      infrastructure_failure (codes "config applied state is invalid")
        (codes "inspect config generation"))

  -- The end of `apply_config`: the running state with the new generation.
  unfoldable pub applied : Owned W → CommittedConfig → Answer W
  applied s committed = state_answer s (
      new_applied (some (active_or (ports.active_core s.backend))) running none
        (some committed.generation))

  -- After the restart: a failed one is rolled back.
  abbrev pub after_restart :
      Owned W → CommittedConfig → W × Result ActorFailure AppliedState → Answer W
  after_restart s committed (w, ok _) = applied (left s w) committed
  after_restart s committed (w, err error) =
      let (w', rollback) = ports.config.rollback_commit committed w in
      failed_with (left s w') (
        infrastructure_failure (reload_message error rollback)
          (codes "fix the config and retry `caly config apply`"))

  -- The restart that stands in for a hot reload.
  abbrev pub restarted : Owned W → CommittedConfig → Answer W
  restarted s committed = after_restart s committed (ports.lifecycle.restart_core s.backend)

  abbrev pub hot_reloaded : Owned W → CommittedConfig → W × Result Text (Unit {0}) → Answer W
  hot_reloaded s committed (w, ok _) = applied (left s w) committed
  hot_reloaded s committed (w, err _) = restarted (left s w) committed

  abbrev pub reload : Owned W → CommittedConfig → Option (List ℕ) → Answer W
  reload s committed none = restarted s committed
  reload s committed (some contents) =
      hot_reloaded s committed (ports.lifecycle.hot_reload contents hot_reload_timeout s.backend)

  abbrev pub published : Owned W → ℕ → W × Result ActorFailure CommittedConfig → Answer W
  published s candidate_id (w, err failure) =
      let (w', _) =
        ports.config.discard_prepared (record { candidate = candidate_id; prepared_generation = 0 })
          w in
      some (ok (left s w', err failure))
  published s candidate_id (w, ok committed) = elim committed.unchanged [
    | true ↦ applied (left s w) committed
    | false ↦ reload (left s w) committed (ports.config.current_contents w)
  ]

  abbrev pub rendered : Owned W → ℕ → W × Result ActorFailure PreparedConfig → Answer W
  rendered s candidate_id (w, err failure) = some (ok (left s w, err failure))
  rendered s candidate_id (w, ok prepared) =
      published s candidate_id (ports.config.commit_candidate prepared w)

  unfoldable pub apply_candidate : Owned W → ℕ → Answer W
  apply_candidate s candidate_id =
      rendered s candidate_id (ports.config.parse_and_render candidate_id s.backend)

  -- `ReloadConfig` takes the operation's identity as the candidate's.
  abbrev pub config_answer : Owned W → ℕ → Command → Answer W
  config_answer s operation (apply_config candidate_id) = apply_candidate s candidate_id
  config_answer s operation reload_config = apply_candidate s operation
  config_answer s operation _ = some (err wrong_command)

  unfoldable pub handle_config : Owned W → RoutedCommand → Handled W
  handle_config s routed =
      guarded config_actor s routed
        (config_answer s routed.envelope.operation_id routed.envelope.command)
