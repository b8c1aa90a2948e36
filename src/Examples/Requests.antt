-- ===== src/Examples/Requests.antt =====
-- The request of an approved tool on a Linux host with apt (services/installation).
use cyber_tracker_ai.Base.{
  String, ◌≡◌, ◌⊎◌, refl, Bool, true, none, some, [], ◌∷◌, ◌==◌, string_eq, All,
}
use cyber_tracker_ai.Base.Dict.{is_some}
use cyber_tracker_ai.Base.Result.{ok}
use cyber_tracker_ai.Policy.{TargetScope, RiskTier}
use cyber_tracker_ai.Terminal.Models.{PlatformIdentifier}
use cyber_tracker_ai.Installation.Models.{InstallationPlan, InstallationState}
use cyber_tracker_ai.Installation.Readiness.{IsReady, decision_on}
use cyber_tracker_ai.Installation.Planner.{
  inspect, is_available, preference, choose_package_manager, build_plan, step_of,
}
use cyber_tracker_ai.Installation.Planner.Runnable.{IsRunnable, build_plan-IsRunnable}
use cyber_tracker_ai.Installation.Requesting.{request_installation}
use cyber_tracker_ai.Installation.Requesting.Agreement.{Agrees, request_installation-Agrees}
use cyber_tracker_ai.Examples.Tools.{nmap}

abbrev scope : TargetScope
scope = record { id = 1; is_active = true; expires_at = none }

abbrev which : String → Bool
which executable = executable == "apt-get"

abbrev plan : InstallationPlan
plan = record {
  installation_steps = step_of nmap "apt" ∷ [];
  risk_level = RiskTier.medium;
  approval_required = true;
}

plan_built : build_plan nmap (inspect which PlatformIdentifier.linux) "LINUX" ≡ ok plan
unfolding build_plan choose_package_manager preference inspect is_available
plan_built = refl

build_plan-IsRunnable_example : All (IsRunnable which) plan.installation_steps
build_plan-IsRunnable_example =
    build_plan-IsRunnable which PlatformIdentifier.linux "LINUX" nmap plan plan_built

request_installation-Agrees_example :
    (IsReady nmap scope "LINUX" 5
      × (is_some (choose_package_manager "LINUX" ("apt" ∷ [])) ≡ true)
      × Agrees
          (decision_on nmap scope 5).verdict
          (request_installation 8 3 (some nmap) ("apt" ∷ []) scope "LINUX" 5).request.state)
    ⊎ ((¬ (
          IsReady nmap scope "LINUX" 5
          × (is_some (choose_package_manager "LINUX" ("apt" ∷ [])) ≡ true)))
        × ((request_installation 8 3 (some nmap) ("apt" ∷ []) scope "LINUX" 5).request.state
            ≡ InstallationState.blocked))
request_installation-Agrees_example =
    request_installation-Agrees 8 3 nmap ("apt" ∷ []) scope "LINUX" 5
