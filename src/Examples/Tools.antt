-- ===== src/Examples/Tools.antt =====
-- An approved tool (services/tools) with complete metadata.
use cyber_tracker_ai.Base.{◌≡◌, ◌↔◌, some, [], ◌∷◌}
use cyber_tracker_ai.Base.Text.{codes}
use cyber_tracker_ai.Policy.{RiskTier}
use cyber_tracker_ai.Tools.Verification.{
  ToolRecord, SourceType, TrustStatus, VerificationResult, IsVerifiable, overall, verify,
  verify_iff,
}
use cyber_tracker_ai.Tools.Registry.Names.{creates, sets_status, run, IsNamed, run-IsNamed}

abbrev draft : ToolRecord
draft = record {
  id = 3;
  name = codes "nmap";
  display_name = codes "Nmap";
  category = "network";
  description = codes "port scanner";
  capabilities = codes "port_scan" ∷ [];
  supported_platforms = "LINUX" ∷ "MACOS" ∷ [];
  source_type = SourceType.official_website;
  source_url = some (codes "https://nmap.org");
  version = some (codes "7.94");
  license = some (codes "NPSL");
  dependencies = [];
  required_permissions = [];
  risk_level = RiskTier.medium;
  entrypoint = some (codes "nmap");
  trust_status = TrustStatus.approved;
  verification = [];
}

abbrev pub nmap : ToolRecord
nmap = record draft { verification = verify draft }

verify_iff_example : (overall (verify draft) ≡ VerificationResult.verified) ↔ IsVerifiable draft
verify_iff_example = verify_iff draft

run-IsNamed_example :
    IsNamed (run (creates draft ∷ creates nmap ∷ sets_status 3 TrustStatus.blocked ∷ []) [])
run-IsNamed_example =
    run-IsNamed (creates draft ∷ creates nmap ∷ sets_status 3 TrustStatus.blocked ∷ [])
