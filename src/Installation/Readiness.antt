-- ===== src/Installation/Readiness.antt =====
-- The checks before an installation is planned (services/installation/readiness.py). The sentence of
-- a check is left out.
use cyber_tracker_ai.Base.{
  ℕ, String, ◌≡◌, refl, ◌↔◌, Bool, true, false, not, ◌||◌, Option, none, some, List, [], ◌∷◌, arith,
  ◌==◌, nat_eq, string_eq, if◌then◌else◌, any, all,
}
use cyber_tracker_ai.Policy.{
  PolicyDecision, TargetScope, evaluate, is_authorized_now, is_registered,
}
use cyber_tracker_ai.Terminal.Templates.{install_action_type}
use cyber_tracker_ai.Tools.Verification.{ToolRecord, SourceType, is_present, is_trusted_source}
use cyber_tracker_ai.Tools.Eligibility.{approves}
use cyber_tracker_ai.Installation.Models.{
  CheckName, tool_exists, provenance_known, source_trusted, platform_supported, license_known,
  dependencies_understood, permissions_known, risk_evaluated, trust_approved, policy_allows,
  target_authorized,
}
use cyber_tracker_ai.Installation.Requests.{is_deny}

pub data CheckStatus : Type 0 where
  pass fail unknown : CheckStatus

pub record ReadinessCheck : Type 0 where
  pub name : CheckName
  pub status : CheckStatus
  pub critical : Bool

pub record ReadinessReport : Type 0 where
  pub tool : Option ToolRecord
  pub checks : List ReadinessCheck
  pub policy_decision : Option PolicyDecision

abbrev pub passes : CheckStatus → Bool
passes pass = true
passes _ = false

abbrev pub fails : CheckStatus → Bool
fails fail = true
fails _ = false

abbrev denies : Option PolicyDecision → Bool
denies none = false
denies (some decision) = is_deny decision.verdict

-- `ReadinessReport.ready`.
unfoldable pub ready : ReadinessReport → Bool
ready report = elim report.tool [
  | none ↦ false
  | some tool ↦
      if denies report.policy_decision
      then false
      else all (λ c. not c.critical || passes c.status) report.checks
]

abbrev check_of : CheckName → Bool → CheckStatus → ReadinessCheck
check_of name critical status = record { name = name; status = status; critical = critical }

abbrev is_known : SourceType → Bool
is_known SourceType.unknown = false
is_known _ = true

abbrev exists_check : ReadinessCheck
exists_check = check_of tool_exists true pass

abbrev provenance_check : ToolRecord → ReadinessCheck
provenance_check tool =
    check_of provenance_known true (if is_known tool.source_type then pass else unknown)

abbrev source_check : ToolRecord → ReadinessCheck
source_check tool =
    check_of source_trusted true (if is_trusted_source tool.source_type then pass else fail)

abbrev pub declares : ToolRecord → String → Bool
declares tool platform = any (λ p. p == platform) tool.supported_platforms

abbrev platform_check : ToolRecord → String → ReadinessCheck
platform_check tool platform =
    check_of platform_supported true (if declares tool platform then pass else fail)

abbrev license_check : ToolRecord → ReadinessCheck
license_check tool =
    check_of license_known false (if is_present tool.license then pass else unknown)

abbrev dependency_check : ReadinessCheck
dependency_check = check_of dependencies_understood false pass

abbrev permissions_check : ReadinessCheck
permissions_check = check_of permissions_known false pass

abbrev risk_check : ReadinessCheck
risk_check = check_of risk_evaluated true pass

abbrev trust_check : ToolRecord → ReadinessCheck
trust_check tool = check_of trust_approved true (if approves tool.trust_status then pass else fail)

abbrev policy_check : PolicyDecision → ReadinessCheck
policy_check decision =
    check_of policy_allows true (if is_deny decision.verdict then fail else pass)

abbrev authorization_check : TargetScope → ℕ → ReadinessCheck
authorization_check scope now =
    check_of target_authorized true (if is_authorized_now scope now then pass else fail)

abbrev pub decision_on : ToolRecord → TargetScope → ℕ → PolicyDecision
decision_on tool scope now =
    evaluate
      (record {
        action_id = tool.id;
        action_type = install_action_type;
        risk_tier = tool.risk_level;
        target = scope;
      })
      now

-- `check`, with what the registry answers for the tool.
unfoldable pub check : Option ToolRecord → TargetScope → String → ℕ → ReadinessReport
check none scope platform now = record {
  tool = none;
  checks = check_of tool_exists true fail ∷ [];
  policy_decision = none;
}
check (some tool) scope platform now =
    let decision = decision_on tool scope now in
    record {
      tool = some tool;
      checks =
          exists_check
          ∷ provenance_check tool
          ∷ source_check tool
          ∷ platform_check tool platform
          ∷ license_check tool
          ∷ dependency_check
          ∷ permissions_check
          ∷ risk_check
          ∷ trust_check tool
          ∷ policy_check decision
          ∷ authorization_check scope now
          ∷ [];
      policy_decision = some decision;
    }

-- What makes a tool ready.
pub record IsReady (tool : ToolRecord) (scope : TargetScope) (platform : String) (now : ℕ)
    : Type 0 where
  pub trusted : is_trusted_source tool.source_type ≡ true
  pub declared : declares tool platform ≡ true
  pub approved : approves tool.trust_status ≡ true
  pub authorized : is_authorized_now scope now ≡ true

trusted_known : (s : SourceType) → is_trusted_source s ≡ true → is_known s ≡ true
trusted_known SourceType.unknown h = h
trusted_known SourceType.official_website h = refl
trusted_known SourceType.official_github h = refl
trusted_known SourceType.official_package_registry h = refl
trusted_known SourceType.other_reputable h = refl

-- Installing is a registered action, so the engine denies it only without an authorization.
pub is_deny-decision_on :
    (tool : ToolRecord) (scope : TargetScope) (now : ℕ)
    → is_deny (decision_on tool scope now).verdict ≡ not (is_authorized_now scope now)
unfolding evaluate is_registered
is_deny-decision_on tool scope now = ground arith

-- A tool is ready for its installation exactly if it is in the registry, comes from a trusted source,
-- declares the platform and is approved, and the target is authorized at that time; its license and
-- its risk make no difference.
pub ready_iff :
    (tool : ToolRecord) (scope : TargetScope) (platform : String) (now : ℕ)
    → (ready (check (some tool) scope platform now) ≡ true) ↔ IsReady tool scope platform now
unfolding ready check
ready_iff tool scope platform now =
    let denied = is_deny-decision_on tool scope now in
    let known = trusted_known tool.source_type in
    (
      λ h. record {
        trusted = ground (arith, denied, h);
        declared = ground (arith, denied, h);
        approved = ground (arith, denied, h);
        authorized = ground (arith, denied, h);
      },
      λ r. ground (arith, denied, known, r.trusted, r.declared, r.approved, r.authorized),
    )
