-- ===== src/Application/Loop/Tests.antt =====
-- The config actor over three of its commands, one of them cancelled.
use caly.Base.{ℕ, ◌≡◌, refl, some, List, [], ◌∷◌, map, leb→le}
use caly.Operations.Command.{apply_config, reload_config}
use caly.Operations.Cancellation.{new_token, request_cancel}
use caly.Application.Routing.{config_actor}
use caly.Application.Ports.{Owned}
use caly.Application.Loop.{run_actor}
use caly.Application.Loop.Drains.{
  Request, routed, turns, live_operations, Drained, run_actor-reports,
}
use caly.Application.Handlers.Deliver.{handle_at}
use caly.Application.Handlers.Tests.{backends, fitting, owned}

abbrev requests : List Request
requests =
    (record { operation_id = 1; command = apply_config 7 }, new_token)
    ∷ (record { operation_id = 2; command = reload_config }, (request_cancel new_token).0)
    ∷ (record { operation_id = 3; command = reload_config }, new_token)
    ∷ []

abbrev roomy : Owned (List ℕ)
roomy = record owned { results = record owned.results { capacity = 8 } }

run_actor-reports_example :
    Drained backends fitting config_actor roomy requests (
      run_actor (handle_at backends config_actor 0) 50 (turns requests) roomy (map routed requests))
run_actor-reports_example =
    run_actor-reports backends fitting config_actor 0 50 requests roomy (refl, (refl, (refl, tt)))
      refl refl (leb→le 3 8 refl)

the_cancelled_one_is_left_out : live_operations requests ≡ some 1 ∷ some 3 ∷ []
unfolding request_cancel
the_cancelled_one_is_left_out = refl
