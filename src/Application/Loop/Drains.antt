-- ===== src/Application/Loop/Drains.antt =====
-- An actor over the mailbox of its owner, up to the reports that it sends.
use caly.Base.{
  ℕ, ◌+◌, ◌≤◌, ◌<◌, ◌≡◌, refl, sym, ap, subst, ◌∙◌, ◌⊎◌, inl, inr, Bool, true, false, Option, none,
  some, List, [], ◌∷◌, ◌++◌, map, length, length-append, if◌then◌else◌, ◌==◌, arith,
}
use caly.Base.Channel.{Channel}
use caly.Operations.Command.{CommandEnvelope}
use caly.Operations.Cancellation.{OperationCancellationToken, is_cancel_requested}
use caly.Application.Routing.{CommandTarget, config_actor, RoutedCommand, owner, route}
use caly.Application.Reporting.{ActorReport, report_operation}
use caly.Application.Ports.{Backends, Owned}
use caly.Application.Actors.{HandlerError}
use caly.Application.Loop.{Poll, Ran, run_loop, run_actor, mailbox_gone}
use caly.Application.Handlers.PortLaws.{FittingFailures}
use caly.Application.Handlers.Deliver.{handle_at}
use caly.Application.Handlers.Reports.{Reports, handle-reports, with_report}
use caly.Application.Handlers.Transaction.{Unquotable}
use mathlib.Core.List.{append_assoc, append-nil}

-- A command with the token of its operation, as admission hands them to the router.
abbrev pub Request : Type 0
Request = CommandEnvelope × OperationCancellationToken

abbrev pub routed : Request → RoutedCommand
routed r = route r.0 r.1

-- A turn in which nothing arrives and nobody cancels, with senders still there or not.
abbrev pub quiet : Bool → Poll RoutedCommand
quiet has_sender = record { is_cancelled = false; arrived = []; has_sender = has_sender }

-- One turn for each command, and one that finds the mailbox empty and its senders gone.
abbrev pub turns : List Request → List (Poll RoutedCommand)
turns [] = quiet false ∷ []
turns (r ∷ rs) = quiet true ∷ turns rs

-- One target owns all the commands.
abbrev pub OwnedBy : CommandTarget → List Request → Type 0
OwnedBy t [] = Unit {0}
OwnedBy t (r ∷ rs) = (owner r.0.command ≡ t) × OwnedBy t rs

-- The operations of the commands that were not cancelled.
abbrev pub live_operations : List Request → List (Option ℕ)
live_operations [] = []
live_operations (r ∷ rs) =
    let rest = live_operations rs in
    if is_cancel_requested r.1 then rest else some r.0.operation_id ∷ rest

abbrev queued_as : Channel ActorReport → List ActorReport → Channel ActorReport
queued_as results queue = record results { queue = queue }

module _ {ℓ} {W : Type ℓ} (ports : Backends W) (fitting : FittingFailures ports) where
  -- Reports sent from `s` to `s'`: one for each of the commands that was not cancelled, in order.
  abbrev pub Reported : Owned W → List Request → Owned W → Type 0
  Reported s rs s' =
      (reports : List ActorReport) × (s'.results
        ≡ record s.results { queue = s.results.queue ++ reports })
      × (map report_operation reports ≡ live_operations rs)

  -- What a run over the mailbox has come to: its end, or a panic after some of the commands, in a
  -- reload whose failure cannot be cut.
  abbrev pub Drained :
      CommandTarget
      → Owned W
      → List Request
      → Option (Ran RoutedCommand (Owned W) HandlerError)
      → Type ℓ
  Drained t s rs ran =
      ((s' : Owned W) × (ran ≡ some (record { state = s'; mailbox = []; exit = some mailbox_gone }))
        × Reported s rs s')
      ⊎ ((s' : Owned W) × (before after : List Request) × (ran ≡ none)
          × (t ≡ config_actor)
          × (rs ≡ before ++ after)
          × Reported s before s'
          × ((id : ℕ) × Unquotable ports s' id))

  -- One command of the target, handled.
  handled :
      (t : CommandTarget) (now : ℕ) (s : Owned W) (r : Request)
      → owner r.0.command ≡ t
      → s.results.is_open ≡ true
      → length s.results.queue < s.results.capacity
      → Reports ports t now s (routed r)
  handled t now s r owns is_open room =
      subst (λ u. Reports ports u now s (routed r)) owns
        (handle-reports ports fitting now s r.0 r.1 is_open room)

  none_reported : (s : Owned W) → Reported s [] s
  none_reported s = ([], ap (queued_as s.results) (sym (append-nil s.results.queue)), refl)

  one_reported :
      (s s1 s2 : Owned W) (report : ActorReport) (r : Request) (rs : List Request)
      → is_cancel_requested r.1 ≡ false
      → s1.results ≡ with_report s.results report
      → report_operation report ≡ some r.0.operation_id
      → Reported s1 rs s2
      → Reported s (r ∷ rs) s2
  one_reported s s1 s2 report r rs live kept named (reports, results, ids) = (
    report ∷ reports,
    results
        ∙ ap (λ c. queued_as c (c.queue ++ reports)) kept
        ∙ ap (queued_as s.results) (append_assoc s.results.queue (report ∷ []) reports),
    rw (live, named, ids),
  )

  cancelled_reported :
      (s s' : Owned W) (r : Request) (rs : List Request)
      → is_cancel_requested r.1 ≡ true
      → Reported s rs s'
      → Reported s (r ∷ rs) s'
  cancelled_reported s s' r rs cancelled (reports, results, ids) =
      (reports, results, rw cancelled ids)

  drains :
      (t : CommandTarget) (now interval : ℕ) (rs : List Request) (s : Owned W)
      → OwnedBy t rs
      → (interval == 0) ≡ false
      → s.results.is_open ≡ true
      → length s.results.queue + length rs ≤ s.results.capacity
      → Drained t s rs (run_loop (handle_at ports t now) interval (turns rs) s (map routed rs))
  unfolding run_loop route
  drains t now interval [] s owns i is_open room = inl (s, rw i refl, none_reported s)
  drains t now interval (r ∷ rs) s (own, owns) i is_open room =
      let same = append-nil (map routed rs) in
      elim (handled t now s r own is_open (omega arith)) [
        | inl (cancelled, e) ↦ elim (drains t now interval rs s owns i is_open (omega arith)) [
          | inl (s', ran, reported) ↦
              inl (s', rw (i, same, e) ran, cancelled_reported s s' r rs cancelled reported)
          | inr (s', before, after, ran, config, split, reported, why) ↦ inr (
            s',
            r ∷ before,
            after,
            rw (i, same, e) ran,
            config,
            ap (◌∷◌ r) split,
            cancelled_reported s s' r before cancelled reported,
            why,
          )
        ]
        | inr (inl (live, (s1, report, e, kept, named))) ↦
            let size = length-append s.results.queue (report ∷ []) in
            let queued = ap (λ c. length c.queue) kept in
            let capacity = ap (λ c. c.capacity) kept in
            elim (drains t now interval rs s1 owns i (ap (λ c. c.is_open) kept ∙ is_open)
              (omega arith)) [
                | inl (s2, ran, reported) ↦ inl (
                  s2,
                  rw (i, same, e) ran,
                  one_reported s s1 s2 report r rs live kept named reported,
                )
                | inr (s2, before, after, ran, config, split, reported, why) ↦ inr (
                  s2,
                  r ∷ before,
                  after,
                  rw (i, same, e) ran,
                  config,
                  ap (◌∷◌ r) split,
                  one_reported s s1 s2 report r before live kept named reported,
                  why,
                )
              ]
        | inr (inr (live, config, why, e)) ↦
            inr (s, [], r ∷ rs, rw (i, same, e) refl, config, refl, none_reported s, why)
      ]

  -- The actor of a target, over a mailbox of the commands that the target owns: where there is room
  -- for their reports, and nothing is sent or cancelled meanwhile, and the backends fail as their types
  -- allow, it takes them all, in order, and ends when the mailbox is empty and its senders are gone. It
  -- has sent one report for each command that was not cancelled, in the order of the commands. Or it
  -- is the config owner's, and panics after some of them, whose reports are sent, on a candidate that
  -- is committed and whose reload fails with a text that cannot be cut at byte 512.
  pub run_actor-reports :
      (t : CommandTarget) (now interval : ℕ) (rs : List Request) (s : Owned W)
      → OwnedBy t rs
      → (interval == 0) ≡ false
      → s.results.is_open ≡ true
      → length s.results.queue + length rs ≤ s.results.capacity
      → Drained t s rs (run_actor (handle_at ports t now) interval (turns rs) s (map routed rs))
  unfolding run_actor
  run_actor-reports t now interval rs s owns i is_open room =
      rw i (drains t now interval rs s owns i is_open room)
