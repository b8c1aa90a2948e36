-- ===== src/Examples/Healing.antt =====
-- A healing engine (services/self_healing) that has seen two timeouts of one task.
use cyber_tracker_ai.Base.{◌≡◌, refl, ◌≤◌, arith, false, true, none, some, List, [], ◌∷◌, count}
use cyber_tracker_ai.Base.Text.{codes, starts_with, take_while, drop, fold}
use cyber_tracker_ai.Healing.Diagnosis.{
  Diagnosis, FailureSignals, high, timeout_exceeded, diagnose, missing_package,
}
use cyber_tracker_ai.Healing.Planner.{HealingPlannerConfig}
use cyber_tracker_ai.Healing.History.{
  Call, failure, result, HealingOutcome, run, is_retry, run_bounded,
}

abbrev config : HealingPlannerConfig
config = record { max_retries = 2; backoff_base_seconds = 2; max_timeout_multiplier = 4 }

abbrev timed_out : FailureSignals
timed_out = record {
  stderr = none;
  stdout = none;
  exit_code = none;
  timed_out = true;
  policy_denied = false;
  error_category = none;
}

abbrev no_package : FailureSignals
no_package = record timed_out {
  timed_out = false;
  stderr = some (codes "E: Unable to locate package nmapx");
}

abbrev timeout_diagnosis : Diagnosis
timeout_diagnosis = record {
  error_category = "timeout";
  root_cause = timeout_exceeded;
  confidence = high;
}

timeout_diagnosed : diagnose timed_out ≡ timeout_diagnosis
unfolding diagnose
timeout_diagnosed = refl

package_found : missing_package (codes "E: Unable to locate package nmapx") ≡ some (codes "nmapx")
unfolding missing_package codes take_while drop fold starts_with
package_found = refl

abbrev calls : List Call
calls =
    failure 1 none timed_out 10
    ∷ result 10 HealingOutcome.failed (codes "again")
    ∷ failure 1 none timed_out 11
    ∷ failure 1 none timed_out 12
    ∷ []

run_bounded_example : count (is_retry 1 "timeout") (run config calls []) ≤ 2
run_bounded_example = run_bounded config 1 "timeout" calls [] (omega arith)
