-- ===== src/Tools/Registry.antt =====
-- The registry of tools (services/tools/registry.py): `InMemoryToolRegistry`. The times are left out.
pub mod Names
use cyber_tracker_ai.Base.{
  ℕ, String, Bool, true, false, not, ◌&&◌, ◌||◌, Option, none, some, List, [], ◌∷◌, ◌==◌, map,
  nat_eq, string_eq, if◌then◌else◌, find, filter, any,
}
use cyber_tracker_ai.Base.Dict.{Dict, get, put, is_some}
use cyber_tracker_ai.Base.Text.{Text, lower, contains, text_eq}
use cyber_tracker_ai.Base.Result.{Result, ok, err}
use cyber_tracker_ai.Tools.Verification.{ToolRecord, TrustStatus, VerificationResult, is_given}

pub data RegistryError : Type 0 where
  duplicate_tool tool_not_found : RegistryError

abbrev pub ToolRegistry : Type 0
ToolRegistry = Dict ℕ ToolRecord

-- `self._tools.values()`.
unfoldable pub values : ToolRegistry → List ToolRecord
values [] = []
values ((id, tool) ∷ rest) = tool ∷ values rest

unfoldable pub get_by_name : Text → ToolRegistry → Option ToolRecord
unfolding values
get_by_name name r = find (λ (t : ToolRecord). t.name == name) (values r)

unfoldable pub create : ToolRecord → ToolRegistry → Result RegistryError ToolRecord × ToolRegistry
unfolding get_by_name
create tool r =
    if is_some (get_by_name tool.name r)
    then (err duplicate_tool, r)
    else (ok tool, put r tool.id tool)

-- `get` of the registry.
unfoldable pub find_tool : ℕ → ToolRegistry → Result RegistryError ToolRecord
find_tool id r = elim (get r id) [ none ↦ err tool_not_found | some tool ↦ ok tool ]

-- A change of the object that the dictionary holds.
unfoldable pub change :
    ℕ → (ToolRecord → ToolRecord) → ToolRegistry → Result RegistryError ToolRecord × ToolRegistry
change id f r = elim (get r id) [
  | none ↦ (err tool_not_found, r)
  | some tool ↦ (ok (f tool), put r id (f tool))
]

unfoldable pub update_trust_status :
    ℕ → TrustStatus → ToolRegistry → Result RegistryError ToolRecord × ToolRegistry
unfolding change
update_trust_status id status r = change id (λ tool. record tool { trust_status = status }) r

unfoldable pub record_verification :
    ℕ
    → Dict String VerificationResult
    → ToolRegistry
    → Result RegistryError ToolRecord × ToolRegistry
unfolding change
record_verification id report r = change id (λ tool. record tool { verification = report }) r

-- The filters of `list`; one that is absent passes everything.
pub record ToolFilter : Type 0 where
  pub category : Option String
  pub platform : Option String
  pub trust_status : Option TrustStatus
  pub search : Option Text

abbrev same_status : TrustStatus → TrustStatus → Bool
same_status TrustStatus.unknown TrustStatus.unknown = true
same_status TrustStatus.discovered TrustStatus.discovered = true
same_status TrustStatus.under_review TrustStatus.under_review = true
same_status TrustStatus.verified TrustStatus.verified = true
same_status TrustStatus.approved TrustStatus.approved = true
same_status TrustStatus.blocked TrustStatus.blocked = true
same_status TrustStatus.deprecated TrustStatus.deprecated = true
same_status _ _ = false

abbrev in_category : Option String → ToolRecord → Bool
in_category none tool = true
in_category (some category) tool = tool.category == category

abbrev on_platform : Option String → ToolRecord → Bool
on_platform none tool = true
on_platform (some platform) tool = any (λ p. p == platform) tool.supported_platforms

abbrev has_status : Option TrustStatus → ToolRecord → Bool
has_status none tool = true
has_status (some status) tool = same_status tool.trust_status status

-- `needle in text.lower()` for one of the texts of a tool.
abbrev mentions : Text → ToolRecord → Bool
mentions needle tool =
    contains needle (lower tool.name)
    || contains needle (lower tool.display_name)
    || contains needle (lower tool.description)
    || any (λ c. contains needle (lower c)) tool.capabilities

-- An empty search counts as none.
abbrev is_found : Option Text → ToolRecord → Bool
is_found none tool = true
is_found (some search) tool = if is_given search then mentions (lower search) tool else true

unfoldable pub list : ToolFilter → ToolRegistry → List ToolRecord
unfolding values
list f r = filter (is_found f.search) (
    filter (has_status f.trust_status)
      (filter (on_platform f.platform) (filter (in_category f.category) (values r))))
