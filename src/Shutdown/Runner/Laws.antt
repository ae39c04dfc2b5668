-- ===== src/Shutdown/Runner/Laws.antt =====
-- The runs of `shutdown_runner.rs` against the plain sequence of the ten actions.
use caly.Base.{
  ℕ, zero, suc, ◌+◌, ◌≤◌, ◌<◌, ◌≡◌, refl, sym, ap, ◌∙◌, inl, inr, false, Option, none, some, List,
  [], ◌∷◌, ◌++◌, length, length-append, arith,
}
use caly.Base.Result.{Result, ok, err}
use caly.Domain.Text.{Text, codes, len_bytes, from_nonempty_clamped}
use caly.Shutdown.{
  ShutdownPhase, reject_transport_mutations, close_command_ingress, stop_telemetry,
  stop_and_reap_core, restore_platform, stop_subscriptions, finish_config_transactions,
  flush_event_sequencer, stop_projector, release_transport_and_lock, completed, next, is_completed,
  complete_current, all_phases, phases_from, phase_cases,
}
use mathlib.Core.List.{append_assoc, append-nil}
use caly.Shutdown.Runner.{
  ShutdownFailure, ShutdownActions, phase_name, timeout_text, timeout_failure, noted, action, timed,
  execute_phase, run_loop, run_shutdown,
}

module _ {S : Type 0} (actions : ShutdownActions S) (shown : Text) where
  -- The failure of one attempt, if it failed.
  abbrev pub failure_of : ShutdownPhase → Option (Result Text (Unit {0})) → List ShutdownFailure
  failure_of phase none = record { phase = phase; message = timeout_text shown phase } ∷ []
  failure_of phase (some (ok _)) = []
  failure_of phase (some (err message)) = record { phase = phase; message = message } ∷ []

  -- The actions of a list of phases, one after another, with the failures in that order.
  abbrev pub attempted : List ShutdownPhase → S → S × List ShutdownFailure
  attempted [] s = (s, [])
  attempted (phase ∷ phases) s =
      let (s', answer) = action actions shown phase s in
      let (end, failures) = attempted phases s' in (end, failure_of phase answer ++ failures)

  len_bytes-append : (s t : Text) → len_bytes (s ++ t) ≡ len_bytes s + len_bytes t
  len_bytes-append [] t = omega arith
  len_bytes-append (c ∷ s) t = omega (arith, len_bytes-append s t)

  phase_name-short : (p : ShutdownPhase) → len_bytes (phase_name p) ≤ 24
  phase_name-short reject_transport_mutations = omega arith
  phase_name-short close_command_ingress = omega arith
  phase_name-short stop_telemetry = omega arith
  phase_name-short stop_and_reap_core = omega arith
  phase_name-short restore_platform = omega arith
  phase_name-short stop_subscriptions = omega arith
  phase_name-short finish_config_transactions = omega arith
  phase_name-short flush_event_sequencer = omega arith
  phase_name-short stop_projector = omega arith
  phase_name-short release_transport_and_lock = omega arith
  phase_name-short completed = omega arith

  timeout_failure-some :
      (phase : ShutdownPhase)
      → len_bytes shown ≤ 400
      → timeout_failure shown phase ≡ some (timeout_text shown phase)
  unfolding timeout_failure from_nonempty_clamped
  timeout_failure-some phase h = ground (
    arith,
    h,
    len_bytes-append (phase_name phase) (codes " exceeded " ++ shown),
    phase_name-short phase,
  )

  timed-kept :
      (phase : ShutdownPhase) (x : S × Option (Result Text (Unit {0})))
      → len_bytes shown ≤ 400
      → (answer : Result Text (Unit {0})) × (timed actions shown phase x ≡ some (x.0, answer))
        × ((fs : List ShutdownFailure)
            → length fs < 12
            → noted fs phase answer ≡ ok (fs ++ failure_of phase x.1))
  timed-kept phase (s, none) h = (
    err (timeout_text shown phase),
    rw (timed, timeout_failure-some phase h) refl,
    λ fs short. ground arith,
  )
  timed-kept phase (s, some (ok u)) h = (ok u, refl, λ fs short. ap ok (sym (append-nil fs)))
  timed-kept phase (s, some (err m)) h = (err m, refl, λ fs short. ground arith)

  run_loop-step :
      (fuel : ℕ) (p q : ShutdownPhase) (fs fs' : List ShutdownFailure) (s s' : S)
      (answer : Result Text (Unit {0}))
      → is_completed p ≡ false
      → execute_phase actions shown p s ≡ some (s', answer)
      → noted fs p answer ≡ ok fs'
      → next p ≡ some q
      → run_loop actions shown (suc fuel) (record { current = p }) fs s
        ≡ run_loop actions shown fuel (record { current = q }) fs' s'
  unfolding run_loop complete_current
  run_loop-step fuel p q fs fs' s s' answer goes_on done kept follows =
      ground (arith, goes_on, done, kept, follows)

  failure_of-small :
      (p : ShutdownPhase) (o : Option (Result Text (Unit {0}))) → length (failure_of p o) ≤ 1
  failure_of-small p none = omega arith
  failure_of-small p (some (ok _)) = omega arith
  failure_of-small p (some (err _)) = omega arith

  run_loop-attempted :
      (fuel : ℕ) (p : ShutdownPhase) (fs : List ShutdownFailure) (s : S)
      → len_bytes shown ≤ 400
      → length (phases_from p) < fuel
      → length fs + length (phases_from p) ≤ 12
      → run_loop actions shown fuel (record { current = p }) fs s
        ≡ some ((attempted (phases_from p) s).0, ok (fs ++ (attempted (phases_from p) s).1))
  unfolding run_loop complete_current
  run_loop-attempted zero p fs s h a b = absurd (omega arith)
  run_loop-attempted (suc fuel) p fs s h a b = elim (phase_cases p) [
    | inl last ↦ rw last (ap (λ x. some (s, ok x)) (sym (append-nil fs)))
    | inr (q, follows, goes_on, rest) ↦
        let (answer, done, kept) = timed-kept p (action actions shown p s) h in
        let fs' = fs ++ failure_of p (action actions shown p s).1 in
        let left = ap length rest in
        run_loop-step fuel p q fs fs' s (action actions shown p s).0 answer goes_on
          (unfold execute_phase in done) (kept fs (omega (arith, left))) follows
        ∙ run_loop-attempted fuel q fs' (action actions shown p s).0 h (omega (arith, left)) (
            omega (
              arith,
              left,
              length-append fs (failure_of p (action actions shown p s).1),
              failure_of-small p (action actions shown p s).1,
            ))
        ∙ rw rest (
            ap (λ x. some ((attempted (phases_from q) (action actions shown p s).0).0, ok x))
              (append_assoc fs (failure_of p (action actions shown p s).1)
                (attempted (phases_from q) (action actions shown p s).0).1))
  ]

  -- Where the timeout has a `Debug` text of at most 400 bytes, a shutdown neither stops early nor
  -- panics: it attempts each of the ten phases once and in order, each on the state that the one
  -- before it left, goes on past failures and timeouts, and returns all the failures, in order.
  pub run_shutdown-attempted :
      (s : S)
      → len_bytes shown ≤ 400
      → run_shutdown actions shown s
        ≡ some ((attempted all_phases s).0, ok (attempted all_phases s).1)
  unfolding run_shutdown
  run_shutdown-attempted s h =
      run_loop-attempted 11 reject_transport_mutations [] s h (omega arith) (omega arith)
