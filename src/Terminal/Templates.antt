-- ===== src/Terminal/Templates.antt =====
-- The command templates (services/terminal/command_templates.py): the only place where an argument
-- vector is made. `sys.executable` is the parameter `executable`.
pub mod Injection
use cyber_tracker_ai.Base.{
  ℕ, zero, suc, ◌+◌, ◌-◌, ◌*◌, ◌^◌, ◌≤◌, ◌<◌, min, max, String, ◌≡◌, refl, sym, ap, ◌∙◌, ◌≢◌, ◌↔◌,
  ◌⊎◌, inl, inr, Bool, true, false, not, ◌&&◌, ◌||◌, Option, none, some, List, [], ◌∷◌, ◌++◌, map,
  arith, ltb, leb, Comparable, ◌==◌, nat_eq, string_eq, if◌then◌else◌, Bool-cases, Option-cases,
  length, any, all, find, filter, count, last?, All, length-append, count-append, count-le-length,
  All-append,
}
use cyber_tracker_ai.Base.Text.{Text, codes, text_eq, text_beq_iff}
use cyber_tracker_ai.Base.Result.{Result, ok, err}
use cyber_tracker_ai.Policy.{RiskTier}

pub data TemplateError : Type 0 where
  invalid_package_name invalid_version invalid_entrypoint unsupported_package_manager :
      TemplateError

-- `[A-Za-z0-9]` and `[A-Za-z0-9._+-]`.
unfoldable pub is_alnum : ℕ → Bool
is_alnum c = leb b'A' c && leb c b'Z' || leb b'a' c && leb c b'z' || leb b'0' c && leb c b'9'

unfoldable pub is_name_char : ℕ → Bool
unfolding is_alnum
is_name_char c = is_alnum c || c == b'.' || c == b'_' || c == b'+' || c == b'-'

-- `{0,n}$` after the first character: at most `n` more, to the end or to a last line feed.
unfoldable pub matches_rest : ℕ → Text → Bool
unfolding is_name_char
matches_rest n [] = true
matches_rest zero (c ∷ cs) = (c ∷ cs) == 10 ∷ []
matches_rest (suc n) (c ∷ cs) = is_name_char c && matches_rest n cs || (c ∷ cs) == 10 ∷ []

unfoldable pub matches : ℕ → Text → Bool
unfolding matches_rest
matches n [] = false
matches n (c ∷ cs) = is_alnum c && matches_rest n cs

abbrev pub package_name_pattern : Text → Bool
package_name_pattern = matches 127

abbrev version_pattern : Text → Bool
version_pattern = matches 63

abbrev executable_name_pattern : Text → Bool
executable_name_pattern = matches 127

-- A parameter `str | None` counts as given if it is not empty.
abbrev pub given : Option Text → Option Text
given none = none
given (some []) = none
given (some (c ∷ cs)) = some (c ∷ cs)

-- `f"{name}{glue}{ver}" if ver else name`.
abbrev pub pinned : Text → Text → Option Text → Text
pinned name glue none = name
pinned name glue (some ver) = name ++ glue ++ ver

abbrev winget_version : Option Text → List Text
winget_version none = []
winget_version (some ver) = codes "--version" ∷ ver ∷ []

abbrev pub winget_argv : Text → Option Text → List Text
winget_argv name ver =
    (codes "winget"
      ∷ codes "install"
      ∷ codes "--id"
      ∷ name
      ∷ codes "--exact"
      ∷ codes "--silent"
      ∷ codes "--accept-package-agreements"
      ∷ codes "--accept-source-agreements"
      ∷ [])
    ++ winget_version ver

abbrev pub apt_argv : Text → Option Text → List Text
apt_argv name ver =
    codes "apt-get" ∷ codes "install" ∷ codes "-y" ∷ pinned name (codes "=") ver ∷ []

abbrev pub dnf_argv : Text → Option Text → List Text
dnf_argv name ver = codes "dnf" ∷ codes "install" ∷ codes "-y" ∷ pinned name (codes "-") ver ∷ []

abbrev pub pacman_argv : Text → List Text
pacman_argv name = codes "pacman" ∷ codes "-S" ∷ codes "--noconfirm" ∷ name ∷ []

abbrev pub brew_argv : Text → Option Text → List Text
brew_argv name ver = codes "brew" ∷ codes "install" ∷ pinned name (codes "@") ver ∷ []

abbrev pub pip_argv : Text → Text → Option Text → List Text
pip_argv executable name ver =
    executable ∷ codes "-m" ∷ codes "pip" ∷ codes "install" ∷ pinned name (codes "==") ver ∷ []

abbrev pub pkg_argv : Text → List Text
pkg_argv name = codes "pkg" ∷ codes "install" ∷ codes "-y" ∷ name ∷ []

unfoldable pub install_argv : Text → String → Text → Option Text → Result TemplateError (List Text)
install_argv executable manager name ver =
    if manager == "winget"
    then ok (winget_argv name ver)
    else if manager == "apt"
    then ok (apt_argv name ver)
    else if manager == "dnf"
    then ok (dnf_argv name ver)
    else if manager == "pacman"
    then ok (pacman_argv name)
    else if manager == "brew"
    then ok (brew_argv name ver)
    else if manager == "pip"
    then ok (pip_argv executable name ver)
    else if manager == "termux_pkg"
    then ok (pkg_argv name)
    else err unsupported_package_manager

-- `_validate(_VERSION_PATTERN, version, "version") if version else None`.
unfoldable pub check_version : Option Text → Result TemplateError (Option Text)
check_version none = ok none
check_version (some ver) = if version_pattern ver then ok (some ver) else err invalid_version

unfoldable pub build_install_command :
    Text → String → Text → Option Text → Result TemplateError (List Text)
unfolding check_version
build_install_command executable manager name version =
    if package_name_pattern name
    then elim (check_version (given version)) [
      | ok ver ↦ install_argv executable manager name ver
      | err e ↦ err e
    ]
    else err invalid_package_name

unfoldable pub verification_argv : Text → String → Text → Result TemplateError (List Text)
verification_argv executable manager name =
    if manager == "pip"
    then ok (executable ∷ codes "-m" ∷ codes "pip" ∷ codes "show" ∷ name ∷ [])
    else if manager == "brew"
    then ok (codes "brew" ∷ codes "list" ∷ codes "--versions" ∷ name ∷ [])
    else if manager == "winget"
    then ok (codes "winget" ∷ codes "list" ∷ codes "--id" ∷ name ∷ [])
    else if manager == "apt"
    then ok (codes "dpkg-query" ∷ codes "-W" ∷ codes "-f=${Version}" ∷ name ∷ [])
    else if manager == "dnf"
    then ok (codes "rpm" ∷ codes "-q" ∷ name ∷ [])
    else if manager == "pacman"
    then ok (codes "pacman" ∷ codes "-Q" ∷ name ∷ [])
    else if manager == "termux_pkg"
    then ok (codes "pkg" ∷ codes "list-installed" ∷ name ∷ [])
    else err unsupported_package_manager

abbrev verification_for : Text → String → Text → Option Text → Result TemplateError (List Text)
verification_for executable manager name (some exe) =
    if executable_name_pattern exe
    then ok (exe ∷ codes "--version" ∷ [])
    else err invalid_entrypoint
verification_for executable manager name none =
    if package_name_pattern name
    then verification_argv executable manager name
    else err invalid_package_name

unfoldable pub build_verification_command :
    Text → String → Text → Option Text → Result TemplateError (List Text)
build_verification_command executable manager name entrypoint =
    verification_for executable manager name (given entrypoint)

abbrev pub install_action_type : String
install_action_type = "tool_install.package_manager_install"

abbrev pub verify_action_type : String
verify_action_type = "tool_install.package_manager_verify"

abbrev pub echo_test : String
echo_test = "diagnostics.echo_test"

-- `ACTION_RISK_TIERS.get(action_type)`.
unfoldable action_risk_tier : String → Option RiskTier
action_risk_tier action_type =
    if action_type == echo_test
    then some RiskTier.low
    else if action_type == install_action_type
    then some RiskTier.medium
    else if action_type == verify_action_type
    then some RiskTier.low
    else none

unfoldable resolve_command : Text → String → Option (List Text)
resolve_command executable action_type =
    if action_type == echo_test
    then some (executable ∷ codes "-c" ∷ codes "print('cyberai-terminal-engine-ok')" ∷ [])
    else none
