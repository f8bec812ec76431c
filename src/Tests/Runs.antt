-- ===== src/Tests/Runs.antt =====
-- A concrete run of the theorem on any sequence of the Manager's calls.
use api_gateway.Prelude.{true, false, [], ◌∷◌, pos, arith}
use api_gateway.Scheduler.Manager
use api_gateway.Scheduler.Manager.{Manager, new_manager, config_from_app_config}
use api_gateway.Scheduler.Endpoints.{pick_available}
use api_gateway.Scheduler.Reachable.{IsValid}
use api_gateway.Scheduler.Reachable.Runs.{Step, Reach, new_manager-Reach-IsValid}
use api_gateway.Tests.{utc, endpoint}

abbrev configured : Manager
configured =
    new_manager (config_from_app_config (pos 30) (pos 300) (pos 60) (pos 0) (pos 0) "platform") true

-- An endpoint fails, a key fails, and then a pick is made.
abbrev two_failures : Manager
two_failures =
    (Manager.mark_key_failure 110 (pos 7) 0 "429" false
      (Manager.mark_failure 100 (pos 2) 0 "500" false configured).0).0

new_manager-Reach-IsValid_example :
    IsValid (pick_available utc 105 105 two_failures (endpoint (pos 2) (pos 5) "" ∷ []) "openai").0
new_manager-Reach-IsValid_example =
    new_manager-Reach-IsValid (pos 30) (pos 300) (pos 60) (pos 0) (pos 0) "platform" true
      (omega arith) (omega arith)
      (Reach.also
        (Reach.also (Reach.also Reach.here (Step.fails 100 (pos 2) 0 "500" false))
          (Step.key_fails 110 (pos 7) 0 "429" false))
        (Step.picks utc 105 105 (endpoint (pos 2) (pos 5) "" ∷ []) "openai"))
