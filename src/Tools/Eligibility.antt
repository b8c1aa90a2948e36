-- ===== src/Tools/Eligibility.antt =====
-- Which tools may be used (services/tools/policy.py). A reason is a constructor in place of its
-- sentence.
use cyber_tracker_ai.Base.{
  String, ◌≡◌, refl, ap, ◌∙◌, ◌↔◌, Bool, true, false, not, Option, none, some, List, [], ◌∷◌, arith,
  ◌==◌, nat_eq, string_eq, if◌then◌else◌, any,
}
use cyber_tracker_ai.Base.Dict.{get, put}
use cyber_tracker_ai.Tools.Verification.{
  ToolRecord, TrustStatus, VerificationResult, is_failed, is_prohibited, verify,
  security_policy_review,
}

pub data EligibilityReason : Type 0 where
  is_blocked is_deprecated prohibited_capability platform_not_declared review_failed :
      EligibilityReason
  not_approved eligible_tool : EligibilityReason

pub record ToolEligibilityDecision : Type 0 where
  pub eligible : Bool
  pub reasons : List EligibilityReason

abbrev decision : Bool → EligibilityReason → ToolEligibilityDecision
decision eligible reason = record { eligible = eligible; reasons = reason ∷ [] }

abbrev blocks : TrustStatus → Bool
blocks TrustStatus.blocked = true
blocks _ = false

abbrev deprecates : TrustStatus → Bool
deprecates TrustStatus.deprecated = true
deprecates _ = false

abbrev pub approves : TrustStatus → Bool
approves TrustStatus.approved = true
approves _ = false

-- The target platform is given and the tool does not declare it.
abbrev is_undeclared : Option String → List String → Bool
is_undeclared none platforms = false
is_undeclared (some platform) platforms = not (any (λ p. p == platform) platforms)

abbrev has_failed : Option VerificationResult → Bool
has_failed none = false
has_failed (some result) = is_failed result

unfoldable pub evaluate : ToolRecord → Option String → ToolEligibilityDecision
evaluate tool platform =
    if blocks tool.trust_status
    then decision false is_blocked
    else if deprecates tool.trust_status
    then decision false is_deprecated
    else if is_prohibited tool.capabilities
    then decision false prohibited_capability
    else if is_undeclared platform tool.supported_platforms
    then decision false platform_not_declared
    else if has_failed (get tool.verification "security_policy_review")
    then decision false review_failed
    else if not (approves tool.trust_status)
    then decision false not_approved
    else decision true eligible_tool

evaluate-eligible :
    (tool : ToolRecord) (platform : Option String)
    → ((evaluate tool platform).eligible ≡ true) ↔ (
        (approves tool.trust_status ≡ true)
        × (is_prohibited tool.capabilities ≡ false)
        × (is_undeclared platform tool.supported_platforms ≡ false)
        × (has_failed (get tool.verification "security_policy_review") ≡ false))
unfolding evaluate
evaluate-eligible tool platform = ground arith

get-verify :
    (tool : ToolRecord)
    → get (verify tool) "security_policy_review" ≡ some (security_policy_review tool)
unfolding verify get put
get-verify tool = refl

-- A tool whose verification is the one that the pipeline makes is eligible exactly if it is approved,
-- declares the target platform where one is given, and declares no prohibited capability.
verify-evaluate :
    (tool : ToolRecord) (platform : Option String)
    → tool.verification ≡ verify tool
    → ((evaluate tool platform).eligible ≡ true) ↔ (
        (approves tool.trust_status ≡ true)
        × (is_prohibited tool.capabilities ≡ false)
        × (is_undeclared platform tool.supported_platforms ≡ false))
unfolding security_policy_review
verify-evaluate tool platform verified =
    let review : get tool.verification "security_policy_review"
        ≡ some (security_policy_review tool) =
      ap (λ v. get v "security_policy_review") verified ∙ get-verify tool in
    ground (arith, review, evaluate-eligible tool platform)
