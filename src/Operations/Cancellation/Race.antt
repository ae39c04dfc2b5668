-- ===== src/Operations/Cancellation/Race.antt =====
-- Cancellation against commit, in any interleaving of the atomic steps on one token.
use caly.Base.{◌≡◌, refl, Bool, true, false, not, List, [], ◌∷◌}
use caly.Operations.Cancellation.{
  OperationCancellationToken, new_token, request_cancel, mark_token, is_cancel_requested,
  is_committed, CancellationSignal, CommitSignal, requested, already_requested, too_late, commits,
  cancellation_won, already_committed,
}

-- One atomic call, by any thread that holds a clone of the token.
pub data Attempt : Type 0 where
  cancels commit : Attempt

-- What the call answers.
pub data Answer : Type 0 where
  to_cancel : CancellationSignal → Answer
  to_commit : CommitSignal → Answer

unfoldable pub attempt : OperationCancellationToken → Attempt → OperationCancellationToken × Answer
unfolding request_cancel mark_token
attempt t cancels = let (t', s) = request_cancel t in (t', to_cancel s)
attempt t commit = let (t', s) = mark_token t in (t', to_commit s)

unfoldable pub race :
    OperationCancellationToken → List Attempt → OperationCancellationToken × List Answer
race t [] = (t, [])
race t (x ∷ xs) = let (t', y) = attempt t x in let (end, ys) = race t' xs in (end, y ∷ ys)

-- What every later call answers once one side has won.
abbrev pub late : Attempt → Attempt → Answer
late cancels cancels = to_cancel already_requested
late cancels commit = to_commit cancellation_won
late commit cancels = to_cancel too_late
late commit commit = to_commit already_committed

abbrev pub all_late : Attempt → List Attempt → List Answer
all_late winner [] = []
all_late winner (x ∷ xs) = late winner x ∷ all_late winner xs

abbrev pub won : Attempt → Answer
won cancels = to_cancel requested
won commit = to_commit commits

abbrev pub is_cancels : Attempt → Bool
is_cancels cancels = true
is_cancels commit = false

abbrev settled : Attempt → OperationCancellationToken
settled cancels = record { cell = 1 }
settled commit = record { cell = 2 }

race-settled :
    (winner : Attempt) (xs : List Attempt)
    → race (settled winner) xs ≡ (settled winner, all_late winner xs)
unfolding race attempt
race-settled winner [] = refl
race-settled cancels (cancels ∷ xs) = rw (race-settled cancels xs)
race-settled cancels (commit ∷ xs) = rw (race-settled cancels xs)
race-settled commit (cancels ∷ xs) = rw (race-settled commit xs)
race-settled commit (commit ∷ xs) = rw (race-settled commit xs)

-- On a new token the first call, and no other, wins: every later call is told that it came too late,
-- and at the end the token shows the winner and not the other.
pub race_first_wins :
    (x : Attempt) (xs : List Attempt)
    → ((race new_token (x ∷ xs)).1 ≡ won x ∷ all_late x xs)
      × (is_cancel_requested (race new_token (x ∷ xs)).0 ≡ is_cancels x)
      × (is_committed (race new_token (x ∷ xs)).0 ≡ not (is_cancels x))
unfolding race attempt
race_first_wins cancels xs = rw (race-settled cancels xs) (refl, refl, refl)
race_first_wins commit xs = rw (race-settled commit xs) (refl, refl, refl)
