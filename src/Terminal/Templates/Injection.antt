-- ===== src/Terminal/Templates/Injection.antt =====
-- What a package name or version can do to the argument vectors of
-- services/terminal/command_templates.py.
use cyber_tracker_ai.Base.{
  ℕ, zero, suc, String, ◌≡◌, refl, inl, inr, Bool, true, false, not, ◌||◌, Option, none, some, List,
  [], ◌∷◌, ◌++◌, arith, ◌==◌, nat_eq, string_eq, any, all,
}
use mathlib.Core.Bool.{false≢true}
use cyber_tracker_ai.Base.Text.{Text, codes, starts_with, text_eq, text_beq, text_beq_iff}
use cyber_tracker_ai.Base.Result.{Result, ok, err, Result-cases}
use cyber_tracker_ai.Terminal.Templates.{
  TemplateError, is_alnum, is_name_char, matches_rest, matches, pinned, given, install_argv,
  winget_argv, apt_argv, dnf_argv, pacman_argv, brew_argv, pip_argv, pkg_argv, check_version,
  build_install_command,
}

-- The options that the templates themselves contain.
abbrev template_options : List Text
template_options =
    codes "--id"
    ∷ codes "--exact"
    ∷ codes "--silent"
    ∷ codes "--accept-package-agreements"
    ∷ codes "--accept-source-agreements"
    ∷ codes "--version"
    ∷ codes "-y"
    ∷ codes "-S"
    ∷ codes "--noconfirm"
    ∷ codes "-m"
    ∷ codes "--versions"
    ∷ codes "-W"
    ∷ codes "-f=${Version}"
    ∷ codes "-q"
    ∷ codes "-Q"
    ∷ []

abbrev is_option : Text → Bool
is_option arg = starts_with (codes "-") arg

-- An argument is no option, or an option of the templates, or the interpreter's own path.
unfoldable pub vetted : Text → Text → Bool
unfolding starts_with codes text_beq
vetted executable arg =
    not (is_option arg) || any (λ o. o == arg) template_options || arg == executable

or_true : (a b : Bool) → (a || b || true) ≡ true
or_true a b = ground arith

vetted-executable : (executable : Text) → vetted executable executable ≡ true
unfolding vetted
vetted-executable executable =
    rw ((text_beq_iff executable executable).1 refl) (or_true (not (is_option executable)) _)

vetted-alnum :
    (executable : Text) (c : ℕ) (cs : Text) → is_alnum c ≡ true → vetted executable (c ∷ cs) ≡ true
unfolding vetted is_alnum starts_with codes
vetted-alnum executable c cs h = let e : is_option (c ∷ cs) ≡ false = ground arith in rw e

-- A text starts with a letter or a digit.
abbrev starts_alnum : Text → Bool
starts_alnum [] = false
starts_alnum (c ∷ cs) = is_alnum c

matches-starts_alnum : (n : ℕ) (t : Text) → matches n t ≡ true → starts_alnum t ≡ true
unfolding matches
matches-starts_alnum n [] h = h
matches-starts_alnum n (c ∷ cs) h = ground arith

abbrev Vetted : Text → Result TemplateError (List Text) → Type 0
Vetted executable r = elim r [ ok argv ↦ all (vetted executable) argv ≡ true | err e ↦ Unit ]

vetted-pinned :
    (executable name glue : Text) (ver : Option Text)
    → starts_alnum name ≡ true
    → vetted executable (pinned name glue ver) ≡ true
vetted-pinned executable [] glue ver h = absurd (false≢true h)
vetted-pinned executable (c ∷ cs) glue none h = vetted-alnum executable c cs h
vetted-pinned executable (c ∷ cs) glue (some v) h = vetted-alnum executable c (cs ++ glue ++ v) h

vetted-name : (executable name : Text) → starts_alnum name ≡ true → vetted executable name ≡ true
vetted-name executable [] h = absurd (false≢true h)
vetted-name executable (c ∷ cs) h = vetted-alnum executable c cs h

abbrev starts_alnum? : Option Text → Bool
starts_alnum? none = true
starts_alnum? (some v) = starts_alnum v

vetted-winget :
    (executable name : Text) (ver : Option Text)
    → vetted executable name ≡ true
    → starts_alnum? ver ≡ true
    → all (vetted executable) (winget_argv name ver) ≡ true
unfolding vetted
vetted-winget executable name none n v = rw n
vetted-winget executable name (some w) n v = rw (n, vetted-name executable w v)

module _ (executable name : Text) (n : vetted executable name ≡ true) where
  vetted-pacman : all (vetted executable) (pacman_argv name) ≡ true
  unfolding vetted
  vetted-pacman = rw n

  vetted-pkg : all (vetted executable) (pkg_argv name) ≡ true
  unfolding vetted
  vetted-pkg = rw n

module _ (executable name : Text) (ver : Option Text) (n : starts_alnum name ≡ true) where
  vetted-apt : all (vetted executable) (apt_argv name ver) ≡ true
  unfolding vetted
  vetted-apt = rw (vetted-pinned executable name (codes "=") ver n)

  vetted-dnf : all (vetted executable) (dnf_argv name ver) ≡ true
  unfolding vetted
  vetted-dnf = rw (vetted-pinned executable name (codes "-") ver n)

  vetted-brew : all (vetted executable) (brew_argv name ver) ≡ true
  unfolding vetted
  vetted-brew = rw (vetted-pinned executable name (codes "@") ver n)

  vetted-pip : all (vetted executable) (pip_argv executable name ver) ≡ true
  unfolding vetted
  vetted-pip = rw (vetted-executable executable, vetted-pinned executable name (codes "==") ver n)

install_argv-vetted :
    (executable : Text) (manager : String) (name : Text) (ver : Option Text) (argv : List Text)
    → starts_alnum name ≡ true
    → starts_alnum? ver ≡ true
    → install_argv executable manager name ver ≡ ok argv
    → all (vetted executable) argv ≡ true
unfolding install_argv
install_argv-vetted executable manager name ver argv n v h =
    let w = vetted-name executable name n in
    ground (
      arith,
      vetted-winget executable name ver w v,
      vetted-apt executable name ver n,
      vetted-dnf executable name ver n,
      vetted-pacman executable name w,
      vetted-brew executable name ver n,
      vetted-pip executable name ver n,
      vetted-pkg executable name w,
    )

check_version-starts_alnum :
    (version ver : Option Text) → check_version version ≡ ok ver → starts_alnum? ver ≡ true
unfolding check_version
check_version-starts_alnum none ver h = ground arith
check_version-starts_alnum (some v) ver h = ground (arith, matches-starts_alnum 63 v)

-- No argument of an install command can be read as an option that the caller slipped in: each one
-- is no option, or an option that the templates contain, or the interpreter's own path.
pub build_install_command-vetted :
    (executable name : Text) (manager : String) (version : Option Text) (argv : List Text)
    → build_install_command executable manager name version ≡ ok argv
    → all (vetted executable) argv ≡ true
unfolding build_install_command
build_install_command-vetted executable name manager version argv h =
    elim (Result-cases (check_version (given version))) [
      | inl v ↦ ground (
        arith,
        v.1,
        matches-starts_alnum 127 name,
        check_version-starts_alnum (given version) v.0,
        install_argv-vetted executable manager name v.0 argv,
      )
      | inr e ↦ ground (arith, e.1)
    ]

matches_rest-line_feed :
    (n : ℕ) (t : Text)
    → matches_rest n t ≡ true
    → all is_name_char t ≡ true
    → matches_rest n (t ++ 10 ∷ []) ≡ true
unfolding matches_rest text_beq
matches_rest-line_feed zero [] h k = refl
matches_rest-line_feed (suc n) [] h k = refl
matches_rest-line_feed zero (c ∷ cs) h k = ground (arith, text_beq_iff (c ∷ cs) (10 ∷ []))
matches_rest-line_feed (suc n) (c ∷ cs) h k = ground (arith, matches_rest-line_feed n cs)

-- Every package name that the pattern accepts is accepted with a line feed after it too, since `$`
-- matches before a last line feed.
matches-line_feed :
    (n : ℕ) (t : Text)
    → matches n t ≡ true
    → all is_name_char t ≡ true
    → matches n (t ++ 10 ∷ []) ≡ true
unfolding matches
matches-line_feed n [] h k = absurd (false≢true h)
matches-line_feed n (c ∷ cs) h k = ground (arith, matches_rest-line_feed n cs)
