-- ===== src/Policy.antt =====
-- The policy engine (services/policy/engine.py). Times are counted from the epoch, and `now` stands
-- for the value of `datetime.now(UTC)` at the call.
pub mod Verdicts
use cyber_tracker_ai.Base.{
  ℕ, zero, suc, ◌+◌, ◌-◌, ◌*◌, ◌^◌, ◌≤◌, ◌<◌, min, max, String, ◌≡◌, refl, sym, ap, ◌∙◌, ◌≢◌, ◌↔◌,
  ◌⊎◌, inl, inr, Bool, true, false, not, ◌&&◌, ◌||◌, Option, none, some, List, [], ◌∷◌, ◌++◌, map,
  arith, ltb, leb, Comparable, ◌==◌, nat_eq, string_eq, if◌then◌else◌, Bool-cases, Option-cases,
  length, any, all, find, filter, count, last?, All, length-append, count-append, count-le-length,
  All-append,
}

pub data PolicyVerdict : Type 0 where
  allow deny require_approval : PolicyVerdict

pub data RiskTier : Type 0 where
  low medium high critical : RiskTier

pub record TargetScope : Type 0 where
  pub id : ℕ
  pub is_active : Bool
  pub expires_at : Option ℕ

unfoldable pub is_authorized_now : TargetScope → ℕ → Bool
is_authorized_now scope now =
    if not scope.is_active
    then false
    else elim scope.expires_at [ none ↦ true | some t ↦ not (leb t now) ]

pub record ActionRequest : Type 0 where
  pub action_id : ℕ
  pub action_type : String
  pub risk_tier : RiskTier
  pub target : TargetScope

-- The sentences of `reasons`, a constructor for each.
pub data PolicyReason : Type 0 where
  no_authorization registered_at_low_risk : PolicyReason
  not_in_registry : String → PolicyReason
  needs_human_approval : RiskTier → PolicyReason

pub record PolicyDecision : Type 0 where
  pub verdict : PolicyVerdict
  pub reasons : List PolicyReason
  pub requires_approval : Bool

abbrev registered_action_types : List String
registered_action_types =
    "diagnostics.echo_test" ∷ "tool_install.package_manager_install"
    ∷ "tool_install.package_manager_verify" ∷ []

unfoldable pub is_registered : String → Bool
is_registered action_type = any (λ t. t == action_type) registered_action_types

-- `risk_tier in (MEDIUM, HIGH, CRITICAL)`.
abbrev pub is_above_low : RiskTier → Bool
is_above_low low = false
is_above_low medium = true
is_above_low high = true
is_above_low critical = true

unfoldable pub evaluate : ActionRequest → ℕ → PolicyDecision
evaluate request now =
    if not (is_authorized_now request.target now)
    then record { verdict = deny; reasons = no_authorization ∷ []; requires_approval = false }
    else if not (is_registered request.action_type)
    then record {
      verdict = deny;
      reasons = not_in_registry request.action_type ∷ [];
      requires_approval = false;
    }
    else if is_above_low request.risk_tier
    then record {
      verdict = require_approval;
      reasons = needs_human_approval request.risk_tier ∷ [];
      requires_approval = true;
    }
    else record {
      verdict = allow;
      reasons = registered_at_low_risk ∷ [];
      requires_approval = false;
    }
