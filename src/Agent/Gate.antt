-- ===== src/Agent/Gate.antt =====
-- The checkpoint of a decision (services/agent_orchestrator/policy_gate.py, ai_schemas.py). The only
-- argument kept of a decision is the text of its target.
use cyber_tracker_ai.Base.{
  ℕ, ◌≡◌, ◌≢◌, ◌⊎◌, ◌↔◌, refl, Bool, true, false, not, ◌&&◌, ◌||◌, Option, none, some, [], ◌∷◌,
  arith, ◌==◌, nat_eq, string_eq, if◌then◌else◌,
}
use cyber_tracker_ai.Base.Text.{Text, strip, lower, text_eq, text_beq_iff}
use cyber_tracker_ai.Base.Result.{Result, ok, err}
use cyber_tracker_ai.Agent.Models.{
  ActionType, install_tool, run_diagnostic, is_execution, AgentTaskState, AgentAction, not_required,
  pending,
}

pub record AgentDecision : Type 0 where
  pub action_type : ActionType
  pub next_action : Text
  pub required_capability : Option Text
  pub tool : Option Text
  pub target : Option Text
  pub requires_approval : Bool

pub record GateDecision : Type 0 where
  pub allowed : Bool
  pub requires_approval : Bool

-- `OutOfScopeError`.
pub data OutOfScope : Type 0 where
  out_of_scope : OutOfScope

unfoldable pub normalized : Text → Text
normalized t = lower (strip t)

-- The decision names a target and the task has another one.
unfoldable pub is_elsewhere : Option Text → Option Text → Bool
is_elsewhere none task = false
is_elsewhere (some []) task = false
is_elsewhere (some (c ∷ cs)) none = false
is_elsewhere (some (c ∷ cs)) (some []) = false
is_elsewhere (some (c ∷ cs)) (some (d ∷ ds)) = not (normalized (c ∷ cs) == normalized (d ∷ ds))

unfoldable pub evaluate : AgentTaskState → AgentDecision → Result OutOfScope GateDecision
evaluate state decision =
    if is_execution decision.action_type && not (state.authorization_status == "AUTHORIZED")
    then ok (record { allowed = false; requires_approval = true })
    else if is_elsewhere decision.target state.target
    then err out_of_scope
    else ok (record {
      allowed = true;
      requires_approval = decision.requires_approval || is_execution decision.action_type;
    })

-- `fresh` is the identifier of the new action.
unfoldable pub build_action : AgentDecision → GateDecision → ℕ → AgentAction
build_action decision gate fresh = record {
  id = fresh;
  action_type = decision.action_type;
  target = decision.target;
  capability = decision.required_capability;
  tool = decision.tool;
  requires_approval = gate.requires_approval;
  approval_state = if gate.requires_approval then pending else not_required;
  expected_result = decision.next_action;
  result_summary = none;
  error_category = none;
  completed_at = none;
}

evaluate-passes :
    (state : AgentTaskState) (decision : AgentDecision) (approval : Bool)
    → (evaluate state decision ≡ ok (record { allowed = true; requires_approval = approval })) ↔ (
        (is_execution decision.action_type ≡ true → state.authorization_status ≡ "AUTHORIZED")
        × (is_elsewhere decision.target state.target ≡ false)
        × (approval ≡ (decision.requires_approval || is_execution decision.action_type)))
unfolding evaluate
evaluate-passes state decision approval =
    ground (arith, string_eq.equals_iff state.authorization_status "AUTHORIZED")

-- Where the decision names a target and the task has one, both not empty, they are the same but for
-- the case of ASCII letters and white space around them.
abbrev pub StaysOn : Option Text → Option Text → Type 0
StaysOn named own =
    (d t : Text) → named ≡ some d → own ≡ some t → d ≢ [] → t ≢ [] → normalized d ≡ normalized t

abbrev pub IsInstallOrDiagnostic : ActionType → Type 0
IsInstallOrDiagnostic t = (t ≡ install_tool) ⊎ (t ≡ run_diagnostic)

is_execution_iff : (t : ActionType) → (is_execution t ≡ true) ↔ IsInstallOrDiagnostic t
is_execution_iff t = ground arith

is_elsewhere_iff : (named own : Option Text) → (is_elsewhere named own ≡ false) ↔ StaysOn named own
unfolding is_elsewhere
is_elsewhere_iff none own = (λ h d t e. absurd cc, λ h. refl)
is_elsewhere_iff (some []) own = (λ h d t e o n. absurd (n (ground (arith, e))), λ h. refl)
is_elsewhere_iff (some (c ∷ cs)) none = (λ h d t e o. absurd cc, λ h. refl)
is_elsewhere_iff (some (c ∷ cs)) (some []) =
    (λ h d t e o n m. absurd (m (ground (arith, o))), λ h. refl)
is_elsewhere_iff (some (c ∷ cs)) (some (d ∷ ds)) =
    let same = text_beq_iff (normalized (c ∷ cs)) (normalized (d ∷ ds)) in
    (
      λ h u t e o n m.
          let f : c ∷ cs ≡ u = ground (arith, e) in
          let g : d ∷ ds ≡ t = ground (arith, o) in
          rw (← f) (rw (← g) (same.0 (ground (arith, h)))),
      λ h.
          let equal = same.1 (h (c ∷ cs) (d ∷ ds) refl refl (λ e. cc) (λ e. cc)) in
          ground (arith, equal),
    )

pub evaluate_iff :
    (state : AgentTaskState) (decision : AgentDecision) (approval : Bool)
    → (evaluate state decision ≡ ok (record { allowed = true; requires_approval = approval })) ↔ (
        (IsInstallOrDiagnostic decision.action_type → state.authorization_status ≡ "AUTHORIZED")
        × StaysOn decision.target state.target
        × ((approval ≡ true)
            ↔ ((decision.requires_approval ≡ true) ⊎ IsInstallOrDiagnostic decision.action_type)))
evaluate_iff state decision approval =
    let e = evaluate-passes state decision approval in
    let x = is_execution_iff decision.action_type in
    let w = is_elsewhere_iff decision.target state.target in
    (
      λ h. let (a, b, c) = e.0 h in ((λ i. a (x.1 i)), w.0 b, ground (arith, c, x)),
      λ h. e.1 ((λ i. h.0 (x.0 i)), w.1 h.1, ground (arith, h.2, x)),
    )
