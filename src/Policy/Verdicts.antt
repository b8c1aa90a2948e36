-- ===== src/Policy/Verdicts.antt =====
-- What the verdicts of the policy engine (services/policy/engine.py) stand for.
use cyber_tracker_ai.Base.{
  ℕ, String, ◌≤◌, ◌<◌, ◌≡◌, ◌↔◌, ◌⊎◌, inl, inr, true, false, some, Option-cases, arith, nat_eq,
  string_eq, length,
}
use cyber_tracker_ai.Policy.{
  PolicyVerdict, allow, deny, require_approval, TargetScope, ActionRequest, is_authorized_now,
  is_registered, evaluate, low, medium, high, critical,
}

-- The target is active and its authorization has not expired.
pub record IsAuthorized (scope : TargetScope) (now : ℕ) : Type 0 where
  pub active : scope.is_active ≡ true
  pub unexpired : (t : ℕ) → scope.expires_at ≡ some t → now < t

-- The three action types that are registered.
abbrev IsRegistered : String → Type 0
IsRegistered action_type =
    (action_type ≡ "diagnostics.echo_test")
    ⊎ (action_type ≡ "tool_install.package_manager_install")
    ⊎ (action_type ≡ "tool_install.package_manager_verify")

is_authorized_now_iff :
    (scope : TargetScope) (now : ℕ) → (is_authorized_now scope now ≡ true) ↔ IsAuthorized scope now
unfolding is_authorized_now
is_authorized_now_iff scope now = elim (Option-cases scope.expires_at) [
  | inl never ↦ (
    λ h. record {
      active = ground (arith, h);
      unexpired = λ t e. absurd (ground (arith, never, e));
    },
    λ a. ground (arith, never, a.active),
  )
  | inr (t, at_t) ↦ (
    λ h. record {
      active = ground (arith, h);
      unexpired =
          λ u e. let same : t ≡ u = ground (arith, at_t, e) in ground (arith, h, at_t, same);
    },
    λ a. ground (arith, at_t, a.active, a.unexpired t at_t),
  )
]

is_registered_iff : (a : String) → (is_registered a ≡ true) ↔ IsRegistered a
unfolding is_registered
is_registered_iff a = ground (
  arith,
  string_eq.equals_iff "diagnostics.echo_test" a,
  string_eq.equals_iff "tool_install.package_manager_install" a,
  string_eq.equals_iff "tool_install.package_manager_verify" a,
)

-- What makes the engine give a verdict.
abbrev pub Justifies : ActionRequest → ℕ → PolicyVerdict → Type 0
Justifies r now allow = IsAuthorized r.target now × IsRegistered r.action_type × (r.risk_tier ≡ low)
Justifies r now require_approval =
    IsAuthorized r.target now
    × IsRegistered r.action_type
    × ((r.risk_tier ≡ medium) ⊎ (r.risk_tier ≡ high) ⊎ (r.risk_tier ≡ critical))
Justifies r now deny = (¬ IsAuthorized r.target now) ⊎ (¬ IsRegistered r.action_type)

-- The engine allows an action exactly if its target is active and not expired, its type is one of the
-- three that are registered, and its risk is LOW; it asks for an approval exactly if the first two
-- hold and the risk is MEDIUM, HIGH or CRITICAL; and it denies exactly if one of the first two fails.
pub evaluate-Justifies :
    (r : ActionRequest) (now : ℕ) (v : PolicyVerdict)
    → ((evaluate r now).verdict ≡ v) ↔ Justifies r now v
unfolding evaluate
evaluate-Justifies r now allow =
    ground (arith, is_authorized_now_iff r.target now, is_registered_iff r.action_type)
evaluate-Justifies r now require_approval =
    ground (arith, is_authorized_now_iff r.target now, is_registered_iff r.action_type)
evaluate-Justifies r now deny =
    ground (arith, is_authorized_now_iff r.target now, is_registered_iff r.action_type)

-- The approval flag is set on exactly the decisions whose verdict asks for approval, and each
-- decision carries exactly one reason.
requires_approval_iff :
    (r : ActionRequest) (now : ℕ)
    → (((evaluate r now).requires_approval ≡ true) ↔ ((evaluate r now).verdict ≡ require_approval))
      × (length (evaluate r now).reasons ≡ 1)
unfolding evaluate
requires_approval_iff r now = ((λ h. ground arith, λ h. ground arith), ground arith)

authorization_expires :
    (s : TargetScope) (t now : ℕ)
    → t ≤ now
    → is_authorized_now s t ≡ false
    → is_authorized_now s now ≡ false
unfolding is_authorized_now
authorization_expires s t now h e = ground arith

-- A denied request stays denied: the passing of time never turns a denial into a permission.
deny_persists :
    (r : ActionRequest) (t now : ℕ)
    → t ≤ now
    → (evaluate r t).verdict ≡ deny
    → (evaluate r now).verdict ≡ deny
unfolding evaluate
deny_persists r t now h e = ground (arith, authorization_expires r.target t now)
