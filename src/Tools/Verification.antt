-- ===== src/Tools/Verification.antt =====
-- The verification of a tool (services/tools/verification.py, models.py). A report keeps its results
-- by the value of the stage; its notes are left out.
use cyber_tracker_ai.Base.{
  ℕ, ◌<◌, String, ◌≡◌, refl, sym, ap, ◌∙◌, ◌↔◌, Bool, true, false, not, ◌&&◌, Option, none, some,
  List, [], ◌∷◌, ◌++◌, map, arith, ltb, ◌==◌, nat_eq, string_eq, if◌then◌else◌, length, any, all,
}
use cyber_tracker_ai.Policy.{RiskTier}
use cyber_tracker_ai.Base.Dict.{Dict, put}
use cyber_tracker_ai.Base.Text.{Text, codes, contains, lower, text_eq}

pub data SourceType : Type 0 where
  official_website official_github official_package_registry other_reputable unknown : SourceType

pub data TrustStatus : Type 0 where
  unknown discovered under_review verified approved blocked deprecated : TrustStatus

pub data VerificationResult : Type 0 where
  verified unverified failed unknown : VerificationResult

-- A `ToolRecord`, or the fields of a `ToolCandidate` that verification reads. The installation method
-- and the kind of approval are read nowhere, and are left out with the times.
pub record ToolRecord : Type 0 where
  pub id : ℕ
  pub name : Text
  pub display_name : Text
  pub category : String
  pub description : Text
  pub capabilities : List Text
  pub supported_platforms : List String
  pub source_type : SourceType
  pub source_url : Option Text
  pub version : Option Text
  pub license : Option Text
  pub dependencies : List Text
  pub required_permissions : List Text
  pub risk_level : RiskTier
  pub entrypoint : Option Text
  pub trust_status : TrustStatus
  pub verification : Dict String VerificationResult

abbrev pub is_failed : VerificationResult → Bool
is_failed VerificationResult.failed = true
is_failed _ = false

abbrev is_unknown : VerificationResult → Bool
is_unknown VerificationResult.unknown = true
is_unknown _ = false

abbrev is_unverified : VerificationResult → Bool
is_unverified VerificationResult.unverified = true
is_unverified _ = false

abbrev values : Dict String VerificationResult → List VerificationResult
values results = map (λ (r : String × VerificationResult). r.1) results

-- `VerificationReport.overall`.
unfoldable pub overall : Dict String VerificationResult → VerificationResult
overall results =
    if not (ltb 0 (length results))
    then VerificationResult.unknown
    else if any is_failed (values results)
    then VerificationResult.failed
    else if any is_unknown (values results)
    then VerificationResult.unknown
    else if any is_unverified (values results)
    then VerificationResult.unverified
    else VerificationResult.verified

-- The truth of a text.
abbrev pub is_given : Text → Bool
is_given [] = false
is_given (c ∷ cs) = true

abbrev pub is_present : Option Text → Bool
is_present none = false
is_present (some t) = is_given t

abbrev prohibited_capability_markers : List Text
prohibited_capability_markers =
    codes "credential_theft"
    ∷ codes "credential_dump"
    ∷ codes "persistence"
    ∷ codes "evasion"
    ∷ codes "exploit_auto"
    ∷ codes "av_bypass"
    ∷ codes "security_control_bypass"
    ∷ []

-- `" ".join(capabilities)`.
unfoldable pub joined : List Text → Text
joined [] = []
joined (t ∷ ts) = let rest = joined ts in elim ts [ [] ↦ t | _ ∷ _ ↦ t ++ 32 ∷ rest ]

unfoldable pub is_prohibited : List Text → Bool
is_prohibited capabilities =
    any (λ m. contains m (lower (joined capabilities))) prohibited_capability_markers

abbrev pub is_trusted_source : SourceType → Bool
is_trusted_source official_website = true
is_trusted_source official_github = true
is_trusted_source official_package_registry = true
is_trusted_source _ = false

abbrev is_reputable : SourceType → Bool
is_reputable other_reputable = true
is_reputable _ = false

abbrev is_supported : String → Bool
is_supported platform =
    any (λ p. p == platform) ("WINDOWS" ∷ "LINUX" ∷ "MACOS" ∷ "ANDROID_TERMUX" ∷ [])

-- The stages.
unfoldable pub collect_metadata : ToolRecord → VerificationResult
collect_metadata tool =
    if is_given tool.name && is_given tool.description
    then VerificationResult.verified
    else VerificationResult.unknown

unfoldable pub verify_source : ToolRecord → VerificationResult
verify_source tool =
    if is_trusted_source tool.source_type && is_present tool.source_url
    then VerificationResult.verified
    else if is_reputable tool.source_type
    then VerificationResult.unverified
    else VerificationResult.unknown

unfoldable pub verify_version : ToolRecord → VerificationResult
verify_version tool =
    if is_present tool.version then VerificationResult.verified else VerificationResult.unknown

unfoldable pub check_platform : ToolRecord → VerificationResult
check_platform tool =
    if not (ltb 0 (length tool.supported_platforms))
    then VerificationResult.unknown
    else if all is_supported tool.supported_platforms
    then VerificationResult.verified
    else VerificationResult.unverified

unfoldable pub check_license : ToolRecord → VerificationResult
check_license tool =
    if is_present tool.license then VerificationResult.verified else VerificationResult.unknown

unfoldable pub check_dependencies : ToolRecord → VerificationResult
check_dependencies tool =
    if ltb 0 (length tool.dependencies)
    then VerificationResult.unverified
    else VerificationResult.verified

unfoldable pub security_policy_review : ToolRecord → VerificationResult
security_policy_review tool =
    if is_prohibited tool.capabilities
    then VerificationResult.failed
    else VerificationResult.verified

unfoldable pub verify : ToolRecord → Dict String VerificationResult
verify tool =
    let results = put [] "collect_metadata" (collect_metadata tool) in
    let results = put results "verify_source" (verify_source tool) in
    let results = put results "verify_version" (verify_version tool) in
    let results = put results "check_platform" (check_platform tool) in
    let results = put results "check_license" (check_license tool) in
    let results = put results "check_dependencies" (check_dependencies tool) in
    put results "security_policy_review" (security_policy_review tool)

-- What it takes to be verified at every stage.
pub record IsVerifiable (tool : ToolRecord) : Type 0 where
  pub described : (is_given tool.name && is_given tool.description) ≡ true
  pub sourced : (is_trusted_source tool.source_type && is_present tool.source_url) ≡ true
  pub versioned : is_present tool.version ≡ true
  pub platforms :
      (ltb 0 (length tool.supported_platforms) && all is_supported tool.supported_platforms) ≡ true
  pub licensed : is_present tool.license ≡ true
  pub independent : length tool.dependencies ≡ 0
  pub permitted : is_prohibited tool.capabilities ≡ false

stages : ToolRecord → List VerificationResult
stages tool =
    collect_metadata tool
    ∷ verify_source tool
    ∷ verify_version tool
    ∷ check_platform tool
    ∷ check_license tool
    ∷ check_dependencies tool
    ∷ security_policy_review tool
    ∷ []

values-verify : (tool : ToolRecord) → values (verify tool) ≡ stages tool
unfolding verify stages put
values-verify tool = refl

abbrev is_verified : VerificationResult → Bool
is_verified VerificationResult.verified = true
is_verified _ = false

all-is_verified :
    (xs : List VerificationResult)
    → all is_verified xs
      ≡ (not (any is_failed xs) && not (any is_unknown xs) && not (any is_unverified xs))
all-is_verified [] = refl
all-is_verified (x ∷ xs) = ground (arith, all-is_verified xs)

overall-verified :
    (results : Dict String VerificationResult)
    → (overall results ≡ VerificationResult.verified)
      ↔ ((0 < length results) × (all is_verified (values results) ≡ true))
unfolding overall
overall-verified results = ground (arith, all-is_verified (values results))

-- The tests of all stages.
abbrev passes : ToolRecord → Bool
passes tool =
    is_given tool.name
    && is_given tool.description
    && (is_trusted_source tool.source_type && is_present tool.source_url)
    && is_present tool.version
    && (ltb 0 (length tool.supported_platforms) && all is_supported tool.supported_platforms)
    && is_present tool.license
    && not (ltb 0 (length tool.dependencies))
    && not (is_prohibited tool.capabilities)

stages-verified : (tool : ToolRecord) → all is_verified (stages tool) ≡ passes tool
unfolding stages collect_metadata verify_source verify_version check_platform check_license
    check_dependencies security_policy_review
stages-verified tool = ground arith

length-verify : (tool : ToolRecord) → 0 < length (verify tool)
unfolding verify put
length-verify tool = omega arith

values-passes : (tool : ToolRecord) → all is_verified (values (verify tool)) ≡ passes tool
values-passes tool = ap (λ v. all is_verified v) (values-verify tool) ∙ stages-verified tool

-- A tool is verified as a whole exactly if it has a name and a description, an official source with
-- its address, a version, platforms that are all supported, a license, no dependencies, and no
-- prohibited capability.
pub verify_iff :
    (tool : ToolRecord) → (overall (verify tool) ≡ VerificationResult.verified) ↔ IsVerifiable tool
verify_iff tool = (
  (λ h.
      let c : passes tool ≡ true =
        sym (values-passes tool) ∙ ((overall-verified (verify tool)).0 h).1 in
      record {
        described = ground (arith, c);
        sourced = ground (arith, c);
        versioned = ground (arith, c);
        platforms = ground (arith, c);
        licensed = ground (arith, c);
        independent = ground (arith, c);
        permitted = ground (arith, c);
      }),
  (λ v. (overall-verified (verify tool)).1 (
    length-verify tool,
    values-passes tool
        ∙ ground (
          arith, v.described, v.sourced, v.versioned, v.platforms, v.licensed, v.independent,
          v.permitted,
        ),
  )),
)
