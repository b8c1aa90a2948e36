-- ===== src/Installation/Planner.antt =====
-- The package managers of the host, and the plan of an installation
-- (services/installation/environment.py, planner.py). `which` is `shutil.which`.
pub mod Runnable
use cyber_tracker_ai.Base.{
  ℕ, String, ◌≡◌, refl, Bool, true, false, not, ◌&&◌, ◌||◌, Option, none, some, List, [], ◌∷◌,
  arith, ◌==◌, nat_eq, string_eq, if◌then◌else◌, any, find, filter, inl, inr, Bool-cases,
}
use cyber_tracker_ai.Base.Text.{Text}
use cyber_tracker_ai.Base.Result.{Result, ok, err}
use cyber_tracker_ai.Policy.{is_above_low}
use cyber_tracker_ai.Terminal.Models.{PlatformIdentifier}
use cyber_tracker_ai.Tools.Verification.{ToolRecord}
use cyber_tracker_ai.Installation.Models.{
  InstallationStep, InstallationPlan, ErrorMessage, unsupported_platform,
  package_manager_unavailable,
}
use cyber_tracker_ai.Installation.Readiness.{declares}

-- The managers are named by their values.
abbrev pub candidates : PlatformIdentifier → List String
candidates PlatformIdentifier.windows = "winget" ∷ "pip" ∷ []
candidates PlatformIdentifier.linux = "apt" ∷ "dnf" ∷ "pacman" ∷ "pip" ∷ []
candidates PlatformIdentifier.macos = "brew" ∷ "pip" ∷ []
candidates PlatformIdentifier.android_termux = "termux_pkg" ∷ "pip" ∷ []
candidates PlatformIdentifier.unknown = "pip" ∷ []

-- `_PACKAGE_MANAGER_EXECUTABLE`.
abbrev executable_of : String → Option String
executable_of manager =
    if manager == "winget"
    then some "winget"
    else if manager == "apt"
    then some "apt-get"
    else if manager == "dnf"
    then some "dnf"
    else if manager == "pacman"
    then some "pacman"
    else if manager == "brew"
    then some "brew"
    else if manager == "termux_pkg"
    then some "pkg"
    else none

module _ (which : String → Bool) where
  abbrev is_on_path : Option String → Bool
  is_on_path none = false
  is_on_path (some executable) = which executable

  -- One round of the loop of `inspect`.
  unfoldable pub is_available : String → Bool
  is_available manager =
      if manager == "pip" then which "pip" || which "pip3" else is_on_path (executable_of manager)

  -- `inspect`: the available package managers.
  unfoldable pub inspect : PlatformIdentifier → List String
  unfolding is_available
  inspect platform = filter is_available (candidates platform)

-- `_PLATFORM_PREFERENCE`.
unfoldable pub preference : String → List String
preference platform =
    if platform == "WINDOWS"
    then "winget" ∷ "pip" ∷ []
    else if platform == "LINUX"
    then "apt" ∷ "dnf" ∷ "pacman" ∷ "pip" ∷ []
    else if platform == "MACOS"
    then "brew" ∷ "pip" ∷ []
    else if platform == "ANDROID_TERMUX"
    then "termux_pkg" ∷ "pip" ∷ []
    else "pip" ∷ []

unfoldable pub choose_package_manager : String → List String → Option String
unfolding preference
choose_package_manager platform available =
    find (λ manager. any (λ m. m == manager) available) (preference platform)

abbrev pub step_of : ToolRecord → String → InstallationStep
step_of tool manager = record {
  package_manager = manager;
  package_name = tool.name;
  version = tool.version;
}

-- The sentences of a plan are left out.
unfoldable pub build_plan : ToolRecord → List String → String → Result ErrorMessage InstallationPlan
unfolding choose_package_manager
build_plan tool available platform =
    if not (declares tool platform)
    then err unsupported_platform
    else elim (choose_package_manager platform available) [
      | none ↦ err package_manager_unavailable
      | some manager ↦ ok (record {
        installation_steps = step_of tool manager ∷ [];
        risk_level = tool.risk_level;
        approval_required = is_above_low tool.risk_level;
      })
    ]
