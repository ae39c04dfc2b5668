-- ===== src/Application/Actors.antt =====
-- crates/caly-application/src/actors: the checks with which each handler begins, and the report with
-- which it ends.
use caly.Base.{ℕ, Option, none, some, List, [], ◌∷◌, if◌then◌else◌}
use caly.Base.Result.{Result, ok, err, map_err}
use caly.Domain.State.{PresentationDelta}
use caly.Operations.Cancellation.{is_cancel_requested}
use caly.Application.Routing.{CommandTarget, RoutedCommand, same_target}
use caly.Application.Reporting.{
  ActorFailure, HandlerReportError, ActorDirective, continue, finish_report,
}
use caly.Application.Ports.{Owned}
use mathlib.Core.Option

-- The error of each of the five handlers: their enums have these three variants.
pub data HandlerError : Type 0 where
  wrong_target wrong_command : HandlerError
  report : HandlerReportError → HandlerError

-- What the `match` on the command computes: the state that the backend leaves and the outcome to
-- report, or the error that the handler returns at once; `none` for a panic.
abbrev pub Answer {ℓ} : Type ℓ → Type ℓ
Answer W = Option (Result HandlerError (Owned W × Result ActorFailure (List PresentationDelta)))

abbrev pub Handled {ℓ} : Type ℓ → Type ℓ
Handled W = Option (Owned W × Result HandlerError ActorDirective)

abbrev pub map_ok {ℓ κ λ'} :
    {E : Type ℓ} {A : Type κ} {B : Type λ'} → (A → B) → Result E A → Result E B
map_ok f (ok a) = ok (f a)
map_ok f (err e) = err e

module _ {ℓ} {W : Type ℓ} where
  -- Replaces the backends' state.
  abbrev pub left : Owned W → W → Owned W
  left s w = record s { backend = w }

  -- The outcome of a method whose value gives one delta.
  abbrev pub outcome_of :
      {A : Type 0} → Owned W → (A → PresentationDelta) → W × Result ActorFailure A → Answer W
  outcome_of s delta (w, r) = some (ok (left s w, map_ok (λ a. delta a ∷ []) r))

  abbrev pub finished : ℕ → Owned W → Answer W → Handled W
  finished operation s none = none
  finished operation s (some (err e)) = some (s, err e)
  finished operation s (some (ok (s', outcome))) =
      Option.map (λ sent. (record s' { results = sent.0 }, map_err report sent.1))
        (finish_report s'.results operation outcome)

  abbrev pub guarded : CommandTarget → Owned W → RoutedCommand → Answer W → Handled W
  guarded target s routed answer =
      if same_target routed.target target
      then (if is_cancel_requested routed.cancellation
          then some (s, ok continue)
          else finished routed.envelope.operation_id s answer)
      else some (s, err wrong_target)
