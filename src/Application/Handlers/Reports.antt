-- ===== src/Application/Handlers/Reports.antt =====
-- The route of a command, its owner's handler and the mailbox of reports together.
use caly.Base.{
  ap, sym, subst, leb→le, ◌∙◌, ==_refl, ℕ, ◌<◌, ◌≡◌, refl, ◌⊎◌, inl, inr, true, false, none, some,
  [], ◌∷◌, ◌++◌, length, ltb, arith, Bool-cases, List,
}
use caly.Base.Result.{Result, ok, err}
use caly.Base.Channel.{Channel}
use caly.Domain.State.{
  PresentationDelta, CoreKind, applied_replaced, observed_replaced, xray, mihomo, sing_box,
}
use caly.Operations.Command.{
  Command, CommandEnvelope, CoreAction, apply_config, switch_core, select_proxy, select_proxy_group,
  set_mode, set_tun, set_system_proxy, set_system_proxy_pac, refresh_subscription,
  close_all_connections, stop_daemon, reload_config,
}
use caly.Operations.Cancellation.{OperationCancellationToken, is_cancel_requested}
use caly.Application.Routing.{
  route, owner, core_lifecycle, config_actor, core_actor, subscription_actor, platform_actor,
  CommandTarget, RoutedCommand, position,
}
use caly.Application.Reporting.{
  ActorFailure, ActorReport, completed, failed, report_operation, continue, finish_report,
  report_outcome, report_completed, report_failed,
}
use caly.Application.Reporting.Clamped.{operation_failure-Fits}
use caly.Application.Ports.{Backends, Owned}
use caly.Application.Actors.{Answer, guarded, left}
use caly.Application.Handlers.Lifecycle.{handle_lifecycle, lifecycle_answer, switch_core_answer}
use caly.Application.Handlers.Core.{core_answer, handle_core}
use caly.Application.Handlers.Platform.{platform_answer, handle_platform}
use caly.Application.Handlers.Subscription.{subscription_answer, handle_subscription}
use caly.Application.Handlers.Config.{config_answer, handle_config, apply_candidate}
use caly.Application.Handlers.Deliver.{handle_at}
use caly.Application.Handlers.PortLaws.{FittingFailures}
use caly.Application.Handlers.Answers.{
  Reportable, Answers, outcome_of-Answers, effect_answer-Answers, refreshed-Answers,
  selected-Answers, mode_answer-Answers, unsupported-Answers,
}
use caly.Application.Handlers.Transaction.{
  Unquotable, unrendered, uncommitted, unchanged, taken_up, rolled_back, panicked,
  apply_candidate_outcome,
}

-- A mailbox with one report more behind its queue.
abbrev pub with_report : Channel ActorReport → ActorReport → Channel ActorReport
with_report results report = record results { queue = results.queue ++ report ∷ [] }

finish-report :
    (results : Channel ActorReport) (operation : ℕ)
    (outcome : Result ActorFailure (List PresentationDelta))
    → Reportable outcome
    → results.is_open ≡ true
    → length results.queue < results.capacity
    → (report : ActorReport) × (finish_report results operation outcome
        ≡ some (with_report results report, ok continue))
      × (report_operation report ≡ some operation)
unfolding finish_report report_outcome report_completed report_failed
finish-report results operation (ok deltas) fits is_open room =
    let few : ltb 16 (length deltas) ≡ false = ground arith in
    let free : ltb (length results.queue) results.capacity ≡ true = ground arith in
    (completed operation deltas, rw (few, is_open, free), refl)
finish-report results operation (err f) fits is_open room =
    let (g, e) = operation_failure-Fits f fits in
    let free : ltb (length results.queue) results.capacity ≡ true = ground arith in
    (failed operation g [], rw (e, is_open, free), refl)

module _ {ℓ} {W : Type ℓ} where
  guarded-reports :
      (s : Owned W) (envelope : CommandEnvelope) (token : OperationCancellationToken) (a : Answer W)
      → is_cancel_requested token ≡ false
      → Answers s a
      → s.results.is_open ≡ true
      → length s.results.queue < s.results.capacity
      → (s' : Owned W) × (report : ActorReport) × (guarded
            (owner envelope.command)
            s
            (route envelope token)
            a
          ≡ some (s', ok continue))
        × (s'.results ≡ with_report s.results report)
        × (report_operation report ≡ some envelope.operation_id)
  unfolding route
  guarded-reports s envelope token a live (s', outcome, e, kept, fits) is_open room =
      let (report, sent, named) =
        finish-report s'.results envelope.operation_id outcome fits
          (ap (λ c. c.is_open) kept ∙ is_open)
          (subst (λ c. length c.queue < c.capacity) (sym kept) room) in
      (
        record s' { results = with_report s'.results report },
        report,
        rw (==_refl (position (owner envelope.command)), live, e, sent),
        ap (λ c. with_report c report) kept,
        named,
      )

  -- Without a cancellation, a panic of the `match` is one of the handler.
  guarded-panics :
      (s : Owned W) (envelope : CommandEnvelope) (token : OperationCancellationToken)
      → is_cancel_requested token ≡ false
      → guarded (owner envelope.command) s (route envelope token) none ≡ none
  unfolding route
  guarded-panics s envelope token live = rw (==_refl (position (owner envelope.command)), live) refl

  -- What the handler of `t` does with a command that it is routed: nothing, where it was cancelled;
  -- one report, which names the operation; or a panic, in a reload whose failure cannot be cut.
  abbrev pub Reports : Backends W → CommandTarget → ℕ → Owned W → RoutedCommand → Type ℓ
  Reports ports t now s r =
      ((is_cancel_requested r.cancellation ≡ true)
        × (handle_at ports t now s r ≡ some (s, ok continue)))
      ⊎ ((is_cancel_requested r.cancellation ≡ false)
          × ((s' : Owned W) × (report : ActorReport) × (handle_at ports t now s r
                ≡ some (s', ok continue))
              × (s'.results ≡ with_report s.results report)
              × (report_operation report ≡ some r.envelope.operation_id)))
      ⊎ ((is_cancel_requested r.cancellation ≡ false)
          × (t ≡ config_actor)
          × ((id : ℕ) × Unquotable ports s id)
          × (handle_at ports t now s r ≡ none))

  module _ (ports : Backends W) (fitting : FittingFailures ports) where
    switch_core-Answers :
        (s : Owned W) (target : CoreKind) (action : CoreAction)
        → Answers s (switch_core_answer ports s target action)
    switch_core-Answers s xray action = unsupported-Answers s _ _ refl refl
    switch_core-Answers s mihomo CoreAction.start =
        outcome_of-Answers s applied_replaced _ (fitting.switch_fits mihomo s.backend)
    switch_core-Answers s mihomo CoreAction.stop =
        outcome_of-Answers s applied_replaced _ (fitting.stop_fits s.backend)
    switch_core-Answers s mihomo CoreAction.restart =
        outcome_of-Answers s applied_replaced _ (fitting.switch_fits mihomo s.backend)
    switch_core-Answers s sing_box CoreAction.start =
        outcome_of-Answers s applied_replaced _ (fitting.switch_fits sing_box s.backend)
    switch_core-Answers s sing_box CoreAction.stop =
        outcome_of-Answers s applied_replaced _ (fitting.stop_fits s.backend)
    switch_core-Answers s sing_box CoreAction.restart =
        outcome_of-Answers s applied_replaced _ (fitting.switch_fits sing_box s.backend)

    -- An answer that goes on to a report, or a panic in the reload of a candidate.
    abbrev MayPanic : CommandTarget → Owned W → Answer W → Type ℓ
    MayPanic t s a =
        Answers s a ⊎ ((t ≡ config_actor) × ((id : ℕ) × Unquotable ports s id) × (a ≡ none))

    apply_candidate-MayPanic :
        (s : Owned W) (id : ℕ) → MayPanic config_actor s (apply_candidate ports s id)
    apply_candidate-MayPanic s id = elim (apply_candidate_outcome ports s id) [
      | unrendered w f renders e ↦
          inl (left s w, err f, e, refl, fitting.render_fits id s.backend f (ap (λ p. p.1) renders))
      | uncommitted prepared w w' f renders commits e ↦
          inl (_, err f, e, refl, fitting.commit_fits prepared w f (ap (λ p. p.1) commits))
      | unchanged c w held same e ↦ inl (_, _, e, refl, leb→le 1 16 refl)
      | taken_up c w w' held new reloads e ↦ inl (_, _, e, refl, leb→le 1 16 refl)
      | rolled_back c w w' error f held new fails built fits e ↦ inl (_, _, e, refl, fits)
      | panicked why e ↦ inr (refl, (id, why), e)
    ]

    -- What the `match` of a target's handler computes for a command.
    abbrev answer_at : CommandTarget → ℕ → Owned W → ℕ → Command → Answer W
    answer_at core_lifecycle now s operation c = lifecycle_answer ports s c
    answer_at config_actor now s operation c = config_answer ports s operation c
    answer_at core_actor now s operation c = core_answer ports s c
    answer_at subscription_actor now s operation c = subscription_answer ports now s c
    answer_at platform_actor now s operation c = platform_answer ports s c

    handle_at-guarded :
        (t : CommandTarget) (now : ℕ) (s : Owned W) (r : RoutedCommand)
        → handle_at ports t now s r
          ≡ guarded t s r (answer_at t now s r.envelope.operation_id r.envelope.command)
    unfolding handle_at handle_lifecycle handle_core handle_platform handle_subscription
        handle_config
    handle_at-guarded core_lifecycle now s r = refl
    handle_at-guarded config_actor now s r = refl
    handle_at-guarded core_actor now s r = refl
    handle_at-guarded subscription_actor now s r = refl
    handle_at-guarded platform_actor now s r = refl

    owner_answer-MayPanic :
        (now : ℕ) (s : Owned W) (operation : ℕ) (c : Command)
        → MayPanic (owner c) s (answer_at (owner c) now s operation c)
    owner_answer-MayPanic now s operation (apply_config id) = apply_candidate-MayPanic s id
    owner_answer-MayPanic now s operation (switch_core target action) =
        inl (switch_core-Answers s target action)
    owner_answer-MayPanic now s operation (select_proxy node) =
        inl (selected-Answers ports s _ (fitting.choose_fits node s.backend))
    owner_answer-MayPanic now s operation (select_proxy_group group member) =
        inl (selected-Answers ports s _ (fitting.choose_group_fits group member s.backend))
    owner_answer-MayPanic now s operation (set_mode mode) =
        inl (mode_answer-Answers ports s mode (fitting.mode_fits mode s.backend))
    owner_answer-MayPanic now s operation (set_tun enabled) =
        inl (effect_answer-Answers s _ _ (fitting.tun_fits enabled s.backend))
    owner_answer-MayPanic now s operation (set_system_proxy enabled) =
        inl (effect_answer-Answers s _ _ (fitting.proxy_fits enabled s.backend))
    owner_answer-MayPanic now s operation (set_system_proxy_pac url) =
        inl (effect_answer-Answers s _ _ (fitting.pac_fits url s.backend))
    owner_answer-MayPanic now s operation (refresh_subscription id force scheduled) =
        inl (refreshed-Answers now s _ (fitting.refresh_fits id _ s.backend))
    owner_answer-MayPanic now s operation close_all_connections =
        inl (outcome_of-Answers s observed_replaced _ (fitting.close_fits s.backend))
    owner_answer-MayPanic now s operation stop_daemon =
        inl (outcome_of-Answers s applied_replaced _ (fitting.stop_fits s.backend))
    owner_answer-MayPanic now s operation reload_config = apply_candidate-MayPanic s operation

    -- Where the backends' failures keep to their type, and the mailbox of reports is open and has room:
    -- the handler of a routed command's target refuses neither the target nor the command, and goes
    -- on. It changes nothing where the cancellation was requested, and otherwise sends exactly one
    -- report, which names the operation. The only panic is that of the config owner, on a candidate
    -- that is committed and whose reload fails with a text of more than 512 bytes that has no
    -- character boundary at byte 512.
    pub handle-reports :
        (now : ℕ) (s : Owned W) (envelope : CommandEnvelope) (token : OperationCancellationToken)
        → s.results.is_open ≡ true
        → length s.results.queue < s.results.capacity
        → Reports ports (owner envelope.command) now s (route envelope token)
    unfolding route
    handle-reports now s envelope token is_open room =
        let target = owner envelope.command in
        let reached = handle_at-guarded target now s (route envelope token) in
        elim (Bool-cases (is_cancel_requested token)) [
          | inl cancelled ↦ inl (cancelled, rw reached (rw (==_refl (position target), cancelled)))
          | inr live ↦ elim (owner_answer-MayPanic now s envelope.operation_id envelope.command) [
            | inl answers ↦ inr (
                inl
                  (live, rw reached (guarded-reports s envelope token _ live answers is_open room)))
            | inr (config, why, panics) ↦ inr (
                inr (
                  live,
                  config,
                  why,
                  reached
                      ∙ ap (guarded target s (route envelope token)) panics
                      ∙ guarded-panics s envelope token live,
                ))
          ]
        ]
