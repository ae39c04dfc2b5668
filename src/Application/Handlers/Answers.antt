-- ===== src/Application/Handlers/Answers.antt =====
-- What each handler's `match` answers on the commands that it owns.
use caly.Base.{ℕ, ◌≤◌, ◌≡◌, refl, true, some, List, [], ◌∷◌, length, leb→le, Bool-cases, inl, inr}
use caly.Base.Result.{Result, ok, err, Result-cases}
use caly.Domain.State.{
  AppliedState, DesiredState, PresentationDelta, PlatformEffectView, ProxyGroupView, ProxyMode,
}
use caly.Domain.Text.{Text}
use caly.Application.Reporting.{ActorFailure, unsupported_kind}
use caly.Application.Reporting.Clamped.{Fits, is_ascii, clamped_failure-Fits}
use caly.Application.Ports.{Backends, Owned, RefreshOutcome}
use caly.Application.Actors.{Answer, outcome_of, left}
use caly.Application.Handlers.PortLaws.{Fitting}
use caly.Application.Handlers.Lifecycle.{unsupported}
use caly.Application.Handlers.Core.{selected, mode_answer, with_groups, list_groups_timeout}
use caly.Application.Handlers.Platform.{effect_answer}
use caly.Application.Handlers.Subscription.{refreshed}

-- An outcome that can be reported: at most 16 deltas, or a failure within bounds.
abbrev pub Reportable : Result ActorFailure (List PresentationDelta) → Type 0
Reportable (ok deltas) = length deltas ≤ 16
Reportable (err f) = Fits f

groups_count :
    (d : PresentationDelta) (r : Result ActorFailure (List ProxyGroupView))
    → length (with_groups (d ∷ []) r) ≤ 16
groups_count d (ok []) = leb→le 1 16 refl
groups_count d (ok (g ∷ gs)) = leb→le 2 16 refl
groups_count d (err f) = leb→le 1 16 refl

module _ {ℓ} {W : Type ℓ} where
  -- An answer that goes on to a report, with the mailbox of reports untouched.
  abbrev pub Answers : Owned W → Answer W → Type ℓ
  Answers s a =
      (s' : Owned W) × (outcome : Result ActorFailure (List PresentationDelta)) × (a
        ≡ some (ok (s', outcome)))
      × (s'.results ≡ s.results)
      × Reportable outcome

  pub outcome_of-Answers :
      {A : Type 0} (s : Owned W) (delta : A → PresentationDelta) (p : W × Result ActorFailure A)
      → Fitting p.1
      → Answers s (outcome_of s delta p)
  outcome_of-Answers s delta (w, ok a) h = (left s w, _, refl, refl, leb→le 1 16 refl)
  outcome_of-Answers s delta (w, err f) h = (left s w, _, refl, refl, h f refl)

  pub effect_answer-Answers :
      (s : Owned W) (update : DesiredState → DesiredState)
      (p : W × Result ActorFailure PlatformEffectView)
      → Fitting p.1
      → Answers s (effect_answer s update p)
  effect_answer-Answers s update (w, ok a) h = (_, _, refl, refl, leb→le 2 16 refl)
  effect_answer-Answers s update (w, err f) h = (_, _, refl, refl, h f refl)

  pub refreshed-Answers :
      (now : ℕ) (s : Owned W) (p : W × Result ActorFailure RefreshOutcome)
      → Fitting p.1
      → Answers s (refreshed now s p)
  refreshed-Answers now s (w, err f) h = (_, _, refl, refl, h f refl)
  refreshed-Answers now s (w, ok r) h = elim (Bool-cases r.changed) [
    | inl moved ↦ (_, _, refl, refl, rw moved (leb→le 1 16 refl))
    | inr same ↦ (_, _, refl, refl, rw same (leb→le 0 16 refl))
  ]

  pub unsupported-Answers :
      (s : Owned W) (message action : Text)
      → is_ascii message ≡ true
      → is_ascii action ≡ true
      → Answers s (unsupported s message action)
  unfolding unsupported
  unsupported-Answers s message action a b =
      let (f, e, fits) = clamped_failure-Fits unsupported_kind message action a b in
      (s, err f, rw e, refl, fits)

  module _ (ports : Backends W) where
    pub selected-Answers :
        (s : Owned W) (p : W × Result ActorFailure AppliedState)
        → Fitting p.1
        → Answers s (selected ports s p)
    selected-Answers s (w, ok a) h =
        (_, _, refl, refl, groups_count _ (ports.core.list_proxy_groups list_groups_timeout w).1)
    selected-Answers s (w, err f) h = (_, _, refl, refl, h f refl)

    pub mode_answer-Answers :
        (s : Owned W) (m : ProxyMode)
        → Fitting (ports.core.change_mode m s.backend).1
        → Answers s (mode_answer ports s m)
    mode_answer-Answers s m h = elim (Result-cases (ports.core.change_mode m s.backend).1) [
      | inl (a, e) ↦ (_, _, refl, refl, rw e (leb→le 2 16 refl))
      | inr (f, e) ↦ (_, _, refl, refl, rw e (h f e))
    ]
