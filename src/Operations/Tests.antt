-- ===== src/Operations/Tests.antt =====
-- Runs of the operation store, admission and cancellation at concrete inputs.
use caly.Base.{◌≡◌, refl, subst, ◌+◌, ◌↔◌, ℕ, true, false, none, some, List, [], ◌∷◌, arith}
use caly.Base.Result.{ok, err}
use caly.Base.Table.{get, put, size}
use caly.Domain.Text.{codes}
use caly.Domain.Operation.{pending, running, completed}
use caly.Operations.Cancellation.{new_token, is_cancel_requested, is_committed}
use caly.Operations.Cancellation.Race.{Attempt, commit, race, won, all_late, race_first_wins}
use caly.Operations.Command.{CommandEnvelope, set_tun, stop_daemon}
use caly.Operations.Record.{OperationRecord, new_record}
use caly.Operations.Record
use caly.Operations.Store
use caly.Operations.Store.{
  OperationStore, holds_terminal, resource_exhausted, insert, new_store, transition,
}
use caly.Operations.Store.Invariant.{IsSound, new_store-IsSound}
use caly.Operations.Store.Insertion.{insert-exhausted_iff}
use caly.Operations.Store.History.{
  Call, inserts, transitions, cancels, commits, step, run, run-IsSound, run-active,
  transition-retained,
}
use caly.Operations.Store.Finality.{GoneOrSame, step_final, CancelOutcome, cancel_outcome}
use caly.Operations.Admission.{AdmissionController}
use caly.Operations.Admission.Submit.{SubmitOutcome, submit_outcome}
use caly.Operations.Admission.Calls.{
  Request, submits, starts, completes, handle_all, all_calls, handle_all-calls,
}

race_first_wins_example :
    ((race new_token (commit ∷ Attempt.cancels ∷ [])).1
      ≡ won commit ∷ all_late commit (Attempt.cancels ∷ []))
    × (is_cancel_requested (race new_token (commit ∷ Attempt.cancels ∷ [])).0 ≡ false)
    × (is_committed (race new_token (commit ∷ Attempt.cancels ∷ [])).0 ≡ true)
race_first_wins_example = race_first_wins commit (Attempt.cancels ∷ [])

-- A store of two operations that retains one terminal record.
abbrev small : OperationStore
small = record { records = []; terminal_order = []; total_capacity = 2; terminal_capacity = 1 }

small-IsSound : IsSound small
small-IsSound = new_store-IsSound 2 1 {s = small} (unfold new_store in refl)

abbrev first_record : OperationRecord
first_record = record {
  id = 1;
  command = set_tun true;
  kind = codes "tun.set";
  created_at = 5;
  updated_at = 5;
  state = pending;
  failure = none;
  commit_reached = false;
  cancellation = new_token;
}

abbrev calls : List Call
calls =
    inserts 1 (set_tun true) (codes "tun.set") 5
    ∷ inserts 2 stop_daemon (codes "daemon.stop") 6
    ∷ transitions 1 running 7 none
    ∷ commits 1
    ∷ transitions 1 completed 8 none
    ∷ []

calls_evict : (run small calls).terminal_order ≡ 1 ∷ []
unfolding run step insert transition Store.mark_committed Record.transition Record.mark_committed
    new_record get put size Store.make_room Store.retain_terminal Store.trim Store.evict
calls_evict = refl

run-IsSound_example : IsSound (run small calls)
run-IsSound_example = run-IsSound small calls small-IsSound

-- The store after operation 1 was admitted and started, beside a waiting operation 2.
abbrev running_record : OperationRecord
running_record = record first_record { state = running; updated_at = 7 }

abbrev finished_record : OperationRecord
finished_record = record first_record { state = completed; updated_at = 8 }

abbrev busy : OperationStore
busy = record small { records = (1, running_record) ∷ [] }

abbrev early : List Call
early = inserts 1 (set_tun true) (codes "tun.set") 5 ∷ transitions 1 running 7 none ∷ []

busy-run : run small early ≡ busy
unfolding run step insert transition Record.transition new_record get put size Store.make_room
busy-run = refl

busy-IsSound : IsSound busy
busy-IsSound = subst IsSound busy-run (run-IsSound small early small-IsSound)

abbrev newcomer : OperationRecord
newcomer = new_record 3 stop_daemon (codes "daemon.stop") 9

insert-exhausted_iff_example :
    ((insert busy newcomer).1 ≡ err resource_exhausted)
    ↔ ((size busy.records ≡ 2) × ((k : ℕ) → holds_terminal (get k busy.records) ≡ false))
insert-exhausted_iff_example =
    insert-exhausted_iff busy busy-IsSound newcomer (unfold get new_record in refl)

run-active_example : get 1 (run busy (commits 2 ∷ [])).records ≡ get 1 busy.records
run-active_example = run-active busy (commits 2 ∷ []) 1 (unfold get in refl) (omega arith)

transition-retained_example :
    ((transition busy 1 completed 8 none).1 ≡ ok tt)
    × (get 1 (transition busy 1 completed 8 none).0.records ≡ some finished_record)
transition-retained_example =
    transition-retained busy 1 completed 8 none running_record finished_record busy-IsSound
      (unfold get in refl) (unfold Record.transition in refl)

abbrev done : OperationStore
done = record busy { records = (1, finished_record) ∷ []; terminal_order = 1 ∷ [] }

step_final_example : GoneOrSame 1 finished_record (step done (cancels 1 9)).records
step_final_example = step_final done 1 finished_record (unfold get in refl) refl (cancels 1 9)

cancel_outcome_example : CancelOutcome busy 1 9
cancel_outcome_example = cancel_outcome busy 1 9 busy-IsSound

-- A clock that counts its calls.
abbrev ticks : ℕ → ℕ × ℕ
ticks n = (n + 1, n + 1)

abbrev controller : AdmissionController ℕ
controller = record {
  store = small;
  ingress = record { queue = []; capacity = 1; is_open = true };
  clock = 0;
}

abbrev request : CommandEnvelope
request = record { operation_id = 1; command = set_tun true }

submit_outcome_example : SubmitOutcome ticks controller request
submit_outcome_example = submit_outcome ticks controller request small-IsSound

abbrev session : List Request
session = submits request ∷ starts 1 ∷ completes 1 ∷ []

handle_all-calls_example :
    ((handle_all ticks controller session).store ≡ run small (all_calls ticks controller session))
    × IsSound (handle_all ticks controller session).store
handle_all-calls_example = handle_all-calls ticks controller session small-IsSound
