-- ===== src/Examples/Policy.antt =====
-- Concrete requests to the policy engine (services/policy/engine.py).
use cyber_tracker_ai.Base.{◌↔◌, ◌≡◌, refl, true, some, nat_eq, string_eq}
use cyber_tracker_ai.Policy.{
  allow, deny, require_approval, RiskTier, TargetScope, ActionRequest, evaluate, is_authorized_now,
  is_registered,
}
use cyber_tracker_ai.Policy.Verdicts.{evaluate-Justifies, Justifies}

abbrev office : TargetScope
office = record { id = 7; is_active = true; expires_at = some 500 }

abbrev echo_request : ActionRequest
echo_request = record {
  action_id = 1;
  action_type = "diagnostics.echo_test";
  risk_tier = RiskTier.low;
  target = office;
}

abbrev install_request : ActionRequest
install_request = record {
  action_id = 2;
  action_type = "tool_install.package_manager_install";
  risk_tier = RiskTier.medium;
  target = office;
}

echo_allowed : (evaluate echo_request 100).verdict ≡ allow
unfolding evaluate is_authorized_now is_registered
echo_allowed = refl

install_asks : (evaluate install_request 100).verdict ≡ require_approval
unfolding evaluate is_authorized_now is_registered
install_asks = refl

expired_denied : (evaluate echo_request 500).verdict ≡ deny
unfolding evaluate is_authorized_now is_registered
expired_denied = refl

office_authorized : is_authorized_now office 100 ≡ true
unfolding is_authorized_now
office_authorized = refl

install_registered : is_registered "tool_install.package_manager_install" ≡ true
unfolding is_registered
install_registered = refl

evaluate-Justifies_example :
    ((evaluate install_request 100).verdict ≡ require_approval)
    ↔ Justifies install_request 100 require_approval
evaluate-Justifies_example = evaluate-Justifies install_request 100 require_approval
