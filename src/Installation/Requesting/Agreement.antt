-- ===== src/Installation/Requesting/Agreement.antt =====
-- What a request comes to (services/installation/service.py), by the policy engine, the readiness
-- checks, the planner, the inspector and the templates.
use cyber_tracker_ai.Base.{
  ℕ, String, ◌≡◌, ◌⊎◌, refl, sym, ◌∙◌, true, false, some, List, [], ◌∷◌, arith, nat_eq, string_eq,
  if◌then◌else◌, Bool-cases, Option-cases, inl, inr,
}
use mathlib.Core.Bool.{true≢false}
use cyber_tracker_ai.Base.Dict.{is_some}
use cyber_tracker_ai.Base.Result.{ok, is_ok}
use cyber_tracker_ai.Policy.{
  PolicyVerdict, TargetScope, evaluate, is_registered, is_authorized_now, is_above_low,
}
use cyber_tracker_ai.Tools.Verification.{ToolRecord}
use cyber_tracker_ai.Installation.Models.{
  InstallationState, waiting_for_approval, preparing, blocked, InstallationPlan,
}
use cyber_tracker_ai.Installation.Readiness.{
  ready, check, IsReady, ready_iff, decision_on, is_deny-decision_on, declares,
}
use cyber_tracker_ai.Installation.Planner.{step_of, choose_package_manager, build_plan}
use cyber_tracker_ai.Installation.Requesting.{planned, plan_for, request_installation}

verdict_of :
    (tool : ToolRecord) (scope : TargetScope) (now : ℕ)
    → is_authorized_now scope now ≡ true
    → (decision_on tool scope now).verdict ≡ (
        if is_above_low tool.risk_level
        then PolicyVerdict.require_approval
        else PolicyVerdict.allow)
unfolding evaluate is_registered
verdict_of tool scope now h = ground (arith, h)

-- A request whose state is not blocked was planned, and its state agrees with the engine's verdict.
abbrev pub Agrees : PolicyVerdict → InstallationState → Type 0
Agrees verdict state =
    ((verdict ≡ PolicyVerdict.allow) × (state ≡ preparing))
    ⊎ ((verdict ≡ PolicyVerdict.require_approval) × (state ≡ waiting_for_approval))

check_fields :
    (tool : ToolRecord) (scope : TargetScope) (platform : String) (now : ℕ)
    → ((check (some tool) scope platform now).tool ≡ some tool)
      × ((check (some tool) scope platform now).policy_decision ≡ some (decision_on tool scope now))
unfolding check
check_fields tool scope platform now = (refl, refl)

build_plan-ok :
    (tool : ToolRecord) (available : List String) (platform : String)
    → declares tool platform ≡ true
    → is_some (choose_package_manager platform available) ≡ true
    → (plan : InstallationPlan) × (build_plan tool available platform ≡ ok plan)
      × (plan.approval_required ≡ is_above_low tool.risk_level)
unfolding build_plan
build_plan-ok tool available platform declared some_manager =
    elim (Option-cases (choose_package_manager platform available)) [
      | inl nothing ↦ absurd (ground (arith, nothing, some_manager))
      | inr (m, chosen) ↦ (
        record {
          installation_steps = step_of tool m ∷ [];
          risk_level = tool.risk_level;
          approval_required = is_above_low tool.risk_level;
        },
        ground (arith, chosen, declared),
        refl,
      )
    ]

build_plan-err :
    (tool : ToolRecord) (available : List String) (platform : String)
    → is_some (choose_package_manager platform available) ≡ false
    → is_ok (build_plan tool available platform) ≡ false
unfolding build_plan
build_plan-err tool available platform no_manager = ground (arith, no_manager)

module _ (fresh tool_id : ℕ) (tool : ToolRecord) (available : List String) (scope : TargetScope)
    (platform : String) (now : ℕ) where
  abbrev state_of : InstallationState
  state_of =
      (request_installation fresh tool_id (some tool) available scope platform now).request.state

  request_unready : ready (check (some tool) scope platform now) ≡ false → state_of ≡ blocked
  unfolding request_installation
  request_unready h = ground (arith, h, check_fields tool scope platform now)

  request_unplanned :
      is_some (choose_package_manager platform available) ≡ false → state_of ≡ blocked
  unfolding request_installation plan_for
  request_unplanned h =
      ground (arith, check_fields tool scope platform now, build_plan-err tool available platform h)

  request_planned :
      IsReady tool scope platform now
      → is_some (choose_package_manager platform available) ≡ true
      → Agrees (decision_on tool scope now).verdict state_of
  unfolding request_installation plan_for planned
  request_planned r h =
      let is_ready = (ready_iff tool scope platform now).1 r in
      let (plan, built, asks) = build_plan-ok tool available platform r.declared h in
      let verdict = verdict_of tool scope now r.authorized in
      let denied = is_deny-decision_on tool scope now in
      let fields = check_fields tool scope platform now in
      elim (Bool-cases (is_above_low tool.risk_level)) [
        | inl above ↦ inr (
          ground (arith, verdict, above),
          ground (arith, is_ready, built, asks, denied, fields, above, r.authorized),
        )
        | inr low ↦ inl (
          ground (arith, verdict, low),
          ground (arith, is_ready, built, asks, denied, fields, low, r.authorized),
        )
      ]

-- The request for a registered tool is not blocked exactly if the tool is ready and one of the
-- preferred package managers is available; where both hold it waits for an approval if the policy
-- engine's verdict is to ask, and is prepared without one if the verdict is to allow.
pub request_installation-Agrees :
    (fresh tool_id : ℕ) (tool : ToolRecord) (available : List String) (scope : TargetScope)
    (platform : String) (now : ℕ)
    → (IsReady tool scope platform now
        × (is_some (choose_package_manager platform available) ≡ true)
        × Agrees
            (decision_on tool scope now).verdict
            (request_installation fresh tool_id
              (some tool)
              available
              scope
              platform
              now).request.state)
      ⊎ ((¬ (
            IsReady tool scope platform now
            × (is_some (choose_package_manager platform available) ≡ true)))
          × ((request_installation fresh tool_id
                (some tool)
                available
                scope
                platform
                now).request.state
              ≡ blocked))
request_installation-Agrees fresh tool_id tool available scope platform now =
    elim (Bool-cases (ready (check (some tool) scope platform now))) [
      | inr unready ↦ inr (
        λ both. true≢false (sym ((ready_iff tool scope platform now).1 both.0) ∙ unready),
        request_unready fresh tool_id tool available scope platform now unready,
      )
      | inl is_ready ↦ elim (Bool-cases (is_some (choose_package_manager platform available))) [
        | inl offered ↦
            let r = (ready_iff tool scope platform now).0 is_ready in
            inl (
              r,
              offered,
              request_planned fresh tool_id tool available scope platform now r offered,
            )
        | inr missing ↦ inr (
          λ both. true≢false (sym both.1 ∙ missing),
          request_unplanned fresh tool_id tool available scope platform now missing,
        )
      ]
    ]
