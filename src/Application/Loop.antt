-- ===== src/Application/Loop.antt =====
-- crates/caly-application/src/runtime/actor_loop.rs: the loop of an actor over its mailbox. The
-- handler is any function on a state; `none` stands for a panic in it. Between two receives other
-- threads may send and cancel: each turn of the loop is given what it finds.
pub mod Drains
mod Tests
use caly.Base.{ℕ, Bool, true, false, Option, none, some, List, [], ◌∷◌, ◌++◌, ◌==◌, if◌then◌else◌}
use caly.Base.Result.{Result, ok, err}
use caly.Application.Reporting.{ActorDirective, continue, stop}

pub data MailboxReceiveError : Type 0 where
  timed_out mailbox_closed invalid_timeout : MailboxReceiveError

-- What a turn finds: whether cancellation was requested, the messages sent since the last turn, and
-- whether a sender lives.
pub record Poll {ℓ} (M : Type ℓ) : Type ℓ where
  pub is_cancelled : Bool
  pub arrived : List M
  pub has_sender : Bool

pub data ActorLoopExit {ℓ} (E : Type ℓ) : Type ℓ where
  was_cancelled handler_stopped mailbox_gone invalid_poll_interval : ActorLoopExit E
  handler_failed : E → ActorLoopExit E

module _ {ℓ} {M : Type ℓ} where
  abbrev pub received : List M → Bool → List M × Result MailboxReceiveError M
  received (m ∷ queue) has_sender = (queue, ok m)
  received [] true = ([], err timed_out)
  received [] false = ([], err mailbox_closed)

  -- `ActorReceiver::receive_timeout`.
  abbrev pub receive_timeout : ℕ → List M → Bool → List M × Result MailboxReceiveError M
  receive_timeout timeout queue has_sender =
      if timeout == 0 then (queue, err invalid_timeout) else received queue has_sender

-- The state of the actor, its mailbox, and the exit; no exit while the loop goes on.
pub record Ran {ℓ κ λ'} (M : Type ℓ) (S : Type κ) (E : Type λ') : Type (ℓ ⊔ κ ⊔ λ') where
  pub state : S
  pub mailbox : List M
  pub exit : Option (ActorLoopExit E)

-- `ActorHandler::handle`.
abbrev pub Handler {ℓ κ λ'} : Type ℓ → Type κ → Type λ' → Type (ℓ ⊔ κ ⊔ λ')
Handler M S E = S → M → Option (S × Result E ActorDirective)

module _ {ℓ κ λ'} {M : Type ℓ} {S : Type κ} {E : Type λ'} where
  -- The `match` on the handler's answer, with the loop behind it.
  abbrev pub answered :
      Option (S × Result E ActorDirective) → List M → (S → Option (Ran M S E)) → Option (Ran M S E)
  answered none queue rest = none
  answered (some (s, ok continue)) queue rest = rest s
  answered (some (s, ok stop)) queue rest =
      some (record { state = s; mailbox = queue; exit = some handler_stopped })
  answered (some (s, err e)) queue rest =
      some (record { state = s; mailbox = queue; exit = some (handler_failed e) })

  -- The `match` on what was received.
  abbrev pub delivered :
      Handler M S E
      → S
      → List M × Result MailboxReceiveError M
      → (S → List M → Option (Ran M S E))
      → Option (Ran M S E)
  delivered handle s (queue, ok m) rest = answered (handle s m) queue (λ s'. rest s' queue)
  delivered handle s (queue, err timed_out) rest = rest s queue
  delivered handle s (queue, err mailbox_closed) rest =
      some (record { state = s; mailbox = queue; exit = some mailbox_gone })
  delivered handle s (queue, err invalid_timeout) rest =
      some (record { state = s; mailbox = queue; exit = some invalid_poll_interval })

  unfoldable pub run_loop : Handler M S E → ℕ → List (Poll M) → S → List M → Option (Ran M S E)
  run_loop handle interval [] s queue = some (record { state = s; mailbox = queue; exit = none })
  run_loop handle interval (p ∷ ps) s queue =
      let before = queue ++ p.arrived in
      if p.is_cancelled
      then some (record { state = s; mailbox = before; exit = some was_cancelled })
      else delivered handle s (receive_timeout interval before p.has_sender)
          (run_loop handle interval ps)

  -- `run_actor`, over the turns that come.
  unfoldable pub run_actor : Handler M S E → ℕ → List (Poll M) → S → List M → Option (Ran M S E)
  run_actor handle interval polls s queue =
      if interval == 0
      then some (record { state = s; mailbox = queue; exit = some invalid_poll_interval })
      else run_loop handle interval polls s queue
