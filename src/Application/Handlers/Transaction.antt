-- ===== src/Application/Handlers/Transaction.antt =====
-- The transaction of `apply_config`: which calls of the backends it comes to, and what it reports.
use caly.Base.{
  ℕ, ◌≡◌, refl, ◌∙◌, ◌⊎◌, inl, inr, true, false, Option, none, some, List, [], ◌∷◌, Bool-cases,
  Option-cases,
}
use caly.Base.Result.{Result, ok, err}
use caly.Domain.Text.{Text, codes}
use caly.Domain.State.{AppliedState, PresentationDelta, applied_replaced, running, new_applied}
use caly.Application.Reporting.{ActorFailure, infrastructure_failure}
use caly.Application.Reporting.Clamped.{Fits, Splits, infrastructure_failure-cases}
use caly.Application.Ports.{Backends, Owned, CommittedConfig, PreparedConfig}
use caly.Application.Actors.{Answer, left}
use caly.Application.Handlers.Config.{
  apply_candidate, published, reload, after_restart, restarted, applied, active_or, reload_message,
  hot_reload_timeout,
}

-- The advice of a failed reload.
abbrev pub retry : Text
retry = codes "fix the config and retry `caly config apply`"

returned {ℓ} :
    {W : Type ℓ} {E A : Type 0} (p : W × Result E A)
    → ((w : W) × (a : A) × (p ≡ (w, ok a))) ⊎ ((w : W) × (e : E) × (p ≡ (w, err e)))
returned (w, ok a) = inl (w, a, refl)
returned (w, err e) = inr (w, e, refl)

module _ {ℓ} {W : Type ℓ} (ports : Backends W) where
  -- No hot reload: the backend has no contents for one, or the core refused them.
  abbrev pub NotHot : W → W → Type ℓ
  NotHot w w' =
      ((ports.config.current_contents w ≡ none) × (w' ≡ w))
      ⊎ ((contents : List ℕ) × (refusal : Text) × (ports.config.current_contents w ≡ some contents)
          × (ports.lifecycle.hot_reload contents hot_reload_timeout w ≡ (w', err refusal)))

  -- How the core takes up what is published, from the state `w` to `w'`: by a hot reload, by a restart
  -- where there was none, or not at all where that restart failed.
  pub data Reloaded (w w' : W) : Option ActorFailure → Type ℓ where
    hot :
        (contents : List ℕ)
        → ports.config.current_contents w ≡ some contents
        → ports.lifecycle.hot_reload contents hot_reload_timeout w ≡ (w', ok tt)
        → Reloaded w w' none
    fresh :
        (w1 : W) (state : AppliedState)
        → NotHot w w1
        → ports.lifecycle.restart_core w1 ≡ (w', ok state)
        → Reloaded w w' none
    stuck :
        (w1 : W) (error : ActorFailure)
        → NotHot w w1
        → ports.lifecycle.restart_core w1 ≡ (w', err error)
        → Reloaded w w' (some error)

  -- The candidate `id`, rendered from the state of `s`, is committed as `c`, which leaves `w`.
  pub record Committed (s : Owned W) (id : ℕ) (c : CommittedConfig) (w : W) : Type ℓ where
    pub prepared : PreparedConfig
    pub rendered : W
    pub renders : ports.config.parse_and_render id s.backend ≡ (rendered, ok prepared)
    pub commits : ports.config.commit_candidate prepared rendered ≡ (w, ok c)

  -- A reload after a commit failed, and the text of the failure cannot be cut at its bound.
  pub record Unquotable (s : Owned W) (id : ℕ) : Type ℓ where
    pub committed : CommittedConfig
    pub published : W
    pub restarted : W
    pub error : ActorFailure
    pub commits : Committed s id committed published
    pub is_new : committed.unchanged ≡ false
    pub fails : Reloaded published restarted (some error)
    pub splits :
        Splits 512 (reload_message error (ports.config.rollback_commit committed restarted).1)

  -- The delta of a candidate that is applied.
  abbrev pub runs : W → CommittedConfig → PresentationDelta
  runs w c = applied_replaced (record {
    core = some (active_or (ports.active_core w));
    run_state = running;
    selected_node = none;
    config_generation = some c.generation;
  })

  pub data ApplyOutcome (s : Owned W) (id : ℕ) : Type ℓ where
    unrendered :
        (w : W) (f : ActorFailure)
        → ports.config.parse_and_render id s.backend ≡ (w, err f)
        → apply_candidate ports s id ≡ some (ok (left s w, err f))
        → ApplyOutcome s id
    uncommitted :
        (prepared : PreparedConfig) (w w' : W) (f : ActorFailure)
        → ports.config.parse_and_render id s.backend ≡ (w, ok prepared)
        → ports.config.commit_candidate prepared w ≡ (w', err f)
        → apply_candidate ports s id
          ≡ some (
              ok (
                left s
                    (ports.config.discard_prepared
                      (record { candidate = id; prepared_generation = 0 })
                      w').0,
                err f,
              ))
        → ApplyOutcome s id
    unchanged :
        (c : CommittedConfig) (w : W)
        → Committed s id c w
        → c.unchanged ≡ true
        → apply_candidate ports s id ≡ some (ok (left s w, ok (runs w c ∷ [])))
        → ApplyOutcome s id
    taken_up :
        (c : CommittedConfig) (w w' : W)
        → Committed s id c w
        → c.unchanged ≡ false
        → Reloaded w w' none
        → apply_candidate ports s id ≡ some (ok (left s w', ok (runs w' c ∷ [])))
        → ApplyOutcome s id
    rolled_back :
        (c : CommittedConfig) (w w' : W) (error f : ActorFailure)
        → Committed s id c w
        → c.unchanged ≡ false
        → Reloaded w w' (some error)
        → infrastructure_failure (reload_message error (ports.config.rollback_commit c w').1) retry
          ≡ some f
        → Fits f
        → apply_candidate ports s id
          ≡ some (ok (left s (ports.config.rollback_commit c w').0, err f))
        → ApplyOutcome s id
    panicked : Unquotable s id → apply_candidate ports s id ≡ none → ApplyOutcome s id

  applied-runs :
      (s : Owned W) (c : CommittedConfig)
      → applied ports s c ≡ some (ok (s, ok (runs s.backend c ∷ [])))
  unfolding applied new_applied
  applied-runs s c = refl

  -- What a reload comes to: the end of the transaction, or the rollback.
  abbrev ReloadOutcome : Owned W → CommittedConfig → Answer W → Type ℓ
  ReloadOutcome s c a =
      ((w : W) × Reloaded s.backend w none × (a ≡ some (ok (left s w, ok (runs w c ∷ [])))))
      ⊎ ((w : W) × (error : ActorFailure) × Reloaded s.backend w (some error)
          × (a ≡ after_restart ports s c (w, err error)))

  restarted_outcome :
      (s : Owned W) (c : CommittedConfig) (w : W)
      → NotHot s.backend w
      → ReloadOutcome s c (restarted ports (left s w) c)
  restarted_outcome s c w cold = elim (returned (ports.lifecycle.restart_core w)) [
    | inl (w', state, e) ↦ inl (w', fresh w state cold e, rw e (applied-runs (left s w') c))
    | inr (w', error, e) ↦ inr (w', error, stuck w error cold e, rw e refl)
  ]

  reload_outcome :
      (s : Owned W) (c : CommittedConfig)
      → ReloadOutcome s c (reload ports s c (ports.config.current_contents s.backend))
  reload_outcome s c = elim (Option-cases (ports.config.current_contents s.backend)) [
    | inl e ↦ rw e (restarted_outcome s c s.backend (inl (e, refl)))
    | inr (contents, e) ↦
        elim (returned (ports.lifecycle.hot_reload contents hot_reload_timeout s.backend)) [
          | inl (w, _, h) ↦ inl (w, hot contents e h, rw (e, h) (applied-runs (left s w) c))
          | inr (w, refusal, h) ↦
              rw (e, h) (restarted_outcome s c w (inr (contents, refusal, e, h)))
        ]
  ]

  published-new :
      (s : Owned W) (id : ℕ) (c : CommittedConfig) (w : W)
      → c.unchanged ≡ false
      → published ports s id (w, ok c) ≡ reload ports (left s w) c (ports.config.current_contents w)
  published-new s id c w new = simp new

  -- A commit that left `w`, where the rest of the transaction is `published`.
  committed_outcome :
      (s : Owned W) (id : ℕ) (c : CommittedConfig) (w : W)
      → Committed s id c w
      → apply_candidate ports s id ≡ published ports s id (w, ok c)
      → ApplyOutcome s id
  committed_outcome s id c w held e = elim (Bool-cases c.unchanged) [
    | inl same ↦ unchanged c w held same (e ∙ rw same (applied-runs (left s w) c))
    | inr new ↦
        let skipped = published-new s id c w new in
        elim (reload_outcome (left s w) c) [
          | inl (w', reloads, done) ↦ taken_up c w w' held new reloads (e ∙ skipped ∙ done)
          | inr (w', error, fails, rest) ↦
              let p = ports.config.rollback_commit c w' in
              elim (infrastructure_failure-cases (reload_message error p.1) retry refl) [
                | inl (panics, splits) ↦
                    panicked
                      (record {
                        committed = c;
                        published = w;
                        restarted = w';
                        error = error;
                        commits = held;
                        is_new = new;
                        fails = fails;
                        splits = splits;
                      })
                      (e ∙ skipped ∙ rest ∙ rw panics refl)
                | inr (f, built, fits) ↦
                    rolled_back c w w' error f held new fails built fits
                      (e ∙ skipped ∙ rest ∙ rw built refl)
              ]
        ]
  ]

  pub apply_candidate_outcome : (s : Owned W) (id : ℕ) → ApplyOutcome s id
  apply_candidate_outcome s id = elim (returned (ports.config.parse_and_render id s.backend)) [
    | inr (w, f, e) ↦ unrendered w f e (unfold apply_candidate in rw e refl)
    | inl (w, prepared, e) ↦ elim (returned (ports.config.commit_candidate prepared w)) [
      | inr (w', f, h) ↦ uncommitted prepared w w' f e h (unfold apply_candidate in rw (e, h) refl)
      | inl (w', c, h) ↦
          committed_outcome s id c w'
            (record { prepared = prepared; rendered = w; renders = e; commits = h })
            (unfold apply_candidate in rw (e, h) refl)
    ]
  ]
