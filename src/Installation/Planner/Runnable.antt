-- ===== src/Installation/Planner/Runnable.antt =====
-- What a plan names (services/installation/planner.py, environment.py,
-- services/terminal/command_templates.py).
use cyber_tracker_ai.Base.{
  ◌&&◌, String, ◌≡◌, refl, sym, Bool, true, Option, some, List, [], ◌∷◌, arith, ◌==◌, nat_eq,
  string_eq, filter, find, any, Bool-cases, Option-cases, inl, inr, All,
}
use mathlib.Core.Path.{subst}
use cyber_tracker_ai.Base.Text.{Text}
use cyber_tracker_ai.Base.Result.{ok, is_ok, Result-cases}
use cyber_tracker_ai.Terminal.Models.{PlatformIdentifier}
use cyber_tracker_ai.Terminal.Templates.{
  build_install_command, install_argv, check_version, given, package_name_pattern,
}
use cyber_tracker_ai.Tools.Verification.{ToolRecord}
use cyber_tracker_ai.Installation.Models.{InstallationStep, InstallationPlan}
use cyber_tracker_ai.Installation.Planner.{
  candidates, step_of, inspect, is_available, preference, choose_package_manager, build_plan,
}

module _ (p : String → Bool) where
  find_sound : (xs : List String) (x : String) → find p xs ≡ some x → p x ≡ true
  find_sound [] x h = absurd (cc)
  find_sound (y ∷ ys) x h = elim (Bool-cases (p y)) [
    | inl yes_y ↦ ground (arith, yes_y, h)
    | inr no_y ↦ find_sound ys x (ground (arith, no_y, h))
  ]

  find-All {κ} :
      (P : String → Type κ) (xs : List String) (x : String) → All P xs → find p xs ≡ some x → P x
  find-All P [] x all h = absurd (cc)
  find-All P (y ∷ ys) x all h = elim (Bool-cases (p y)) [
    | inl yes_y ↦ subst P (ground (arith, yes_y, h)) all.0
    | inr no_y ↦ find-All P ys x all.1 (ground (arith, no_y, h))
  ]

  any-filter : (x : String) (xs : List String) → any (λ m. m == x) (filter p xs) ≡ true → p x ≡ true
  any-filter x [] h = absurd (cc)
  any-filter x (y ∷ ys) h = elim (Bool-cases (p y)) [
    | inl yes_y ↦ elim (Bool-cases (y == x)) [
      | inl same ↦ subst (λ z. p z ≡ true) ((string_eq.equals_iff y x).0 same) yes_y
      | inr other ↦ any-filter x ys (ground (arith, yes_y, other, h))
    ]
    | inr no_y ↦ any-filter x ys (ground (arith, no_y, h))
  ]

-- Every manager that the planner may choose has an install template.
preference_supported :
    (executable name : Text) (ver : Option Text) (platform : String)
    → All (λ m. is_ok (install_argv executable m name ver) ≡ true) (preference platform)
unfolding preference install_argv
preference_supported executable name ver platform = elim (Bool-cases (platform == "WINDOWS")) [
  | inl w ↦ rw w (refl, (refl, tt))
  | inr nw ↦ elim (Bool-cases (platform == "LINUX")) [
    | inl l ↦ rw nw (rw l (refl, (refl, (refl, (refl, tt)))))
    | inr nl ↦ elim (Bool-cases (platform == "MACOS")) [
      | inl m ↦ rw nw (rw nl (rw m (refl, (refl, tt))))
      | inr nm ↦ elim (Bool-cases (platform == "ANDROID_TERMUX")) [
        | inl a ↦ rw nw (rw nl (rw nm (rw a (refl, (refl, tt)))))
        | inr na ↦ rw nw (rw nl (rw nm (rw na (refl, tt))))
      ]
    ]
  ]
]

-- The command of a package is built exactly for a valid name and a valid version.
build_install_command-ok :
    (executable name : Text) (version : Option Text) (manager : String)
    → ((ver : Option Text) → is_ok (install_argv executable manager name ver) ≡ true)
    → is_ok (build_install_command executable manager name version)
      ≡ (package_name_pattern name && is_ok (check_version (given version)))
unfolding build_install_command
build_install_command-ok executable name version manager supported =
    elim (Result-cases (check_version (given version))) [
      | inl (ver, valid) ↦ ground (arith, valid, supported ver)
      | inr (e, invalid) ↦ ground (arith, invalid)
    ]

-- The package manager of a step is on the path of the host, and its command is built exactly if the
-- name and the version of the package match the patterns of the templates.
abbrev pub IsRunnable : (String → Bool) → InstallationStep → Type 0
IsRunnable which step =
    (is_available which step.package_manager ≡ true)
    × ((executable : Text)
        → is_ok
            (build_install_command executable step.package_manager step.package_name step.version)
          ≡ (package_name_pattern step.package_name && is_ok (check_version (given step.version))))

chosen-IsRunnable :
    (which : String → Bool) (host : PlatformIdentifier) (platform manager : String)
    (tool : ToolRecord)
    → choose_package_manager platform (inspect which host) ≡ some manager
    → IsRunnable which (step_of tool manager)
unfolding choose_package_manager inspect
chosen-IsRunnable which host platform manager tool h =
    let offered = λ (m : String). any (λ x. x == m) (inspect which host) in
    (
      any-filter (is_available which) manager (candidates host)
          (find_sound offered (preference platform) manager h),
      λ executable. build_install_command-ok executable tool.name tool.version manager (λ ver.
          find-All offered (λ m. is_ok (install_argv executable m tool.name ver) ≡ true)
            (preference platform) manager (preference_supported executable tool.name ver platform)
            h),
    )

-- Every step of a plan names a package manager that is on the path of the host that was inspected, and
-- its command is built exactly if the name and the version of the package match the patterns of the
-- templates: no other error of the templates is left.
pub build_plan-IsRunnable :
    (which : String → Bool) (host : PlatformIdentifier) (platform : String) (tool : ToolRecord)
    (plan : InstallationPlan)
    → build_plan tool (inspect which host) platform ≡ ok plan
    → All (IsRunnable which) plan.installation_steps
unfolding build_plan
build_plan-IsRunnable which host platform tool plan h =
    elim (Option-cases (choose_package_manager platform (inspect which host))) [
      | inl nothing ↦ absurd (ground (arith, nothing, h))
      | inr (m, chosen) ↦
          let e : plan.installation_steps ≡ step_of tool m ∷ [] = ground (arith, chosen, h) in
          subst (All (IsRunnable which)) (sym e)
            (chosen-IsRunnable which host platform m tool chosen, tt)
    ]
