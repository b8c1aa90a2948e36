-- ===== src/Examples/Validation.antt =====
-- Concrete requests to the validation, the command templates, the capped reader and the execution
-- controller (services/terminal).
use cyber_tracker_ai.Base.{
  ℕ, ◌≡◌, refl, ◌⊎◌, true, none, some, List, [], ◌∷◌, ◌++◌, arith, ltb, nat_eq, string_eq, length,
  all,
}
use cyber_tracker_ai.Base.Result.{ok, err}
use cyber_tracker_ai.Base.Text.{Text, codes, starts_with, text_beq, text_eq}
use cyber_tracker_ai.Terminal.Validation.{
  validate_working_directory, validate_working_directory_confined, isabs, join,
}
use cyber_tracker_ai.Terminal.Output
use cyber_tracker_ai.Terminal.Output.{CappedReader, read_all, read_all_capped, take, flatten}
use cyber_tracker_ai.Terminal.Templates
use cyber_tracker_ai.Terminal.Templates.{
  build_install_command, install_argv, matches, matches_rest, is_alnum, is_name_char, check_version,
  install_action_type,
}
use cyber_tracker_ai.Terminal.Templates.Injection.{build_install_command-vetted, vetted}

-- A file system without links, over paths that are normal already.
abbrev pub plain : Text → Text
plain path = path

below_work :
    validate_working_directory plain (some (codes "src")) (codes "/work") ≡ ok (codes "/work/src")
unfolding validate_working_directory isabs join starts_with codes text_beq
below_work = refl

validate_working_directory_confined_example :
    (codes "/work/src" ≡ codes "/work")
    ⊎ ((rest : Text) × (codes "/work/src" ≡ (codes "/work" ++ codes "/") ++ rest))
validate_working_directory_confined_example =
    validate_working_directory_confined plain (some (codes "src")) (codes "/work")
      (codes "/work/src") below_work

abbrev chunks : List (List ℕ)
chunks = (1 ∷ 2 ∷ []) ∷ (3 ∷ 4 ∷ []) ∷ []

read_all_capped_example :
    ((read_all (Output.new (some 3)) chunks).chunks ≡ take 3 (flatten chunks))
    × ((read_all (Output.new (some 3)) chunks).exceeded ≡ ltb 3 (length (flatten chunks)))
read_all_capped_example = read_all_capped 3 chunks (omega arith)

apt_made :
    build_install_command (codes "/usr/bin/python") "apt" (codes "nmap") (some (codes "7.9"))
    ≡ ok (codes "apt-get" ∷ codes "install" ∷ codes "-y" ∷ codes "nmap=7.9" ∷ [])
unfolding build_install_command install_argv matches codes
apt_made = refl

flag_refused :
    build_install_command (codes "/usr/bin/python") "apt" (codes "--force") none
    ≡ err Templates.invalid_package_name
unfolding build_install_command install_argv matches codes
flag_refused = refl

build_install_command-vetted_example :
    all
      (vetted (codes "/usr/bin/python"))
      (codes "apt-get" ∷ codes "install" ∷ codes "-y" ∷ codes "nmap=7.9" ∷ [])
    ≡ true
build_install_command-vetted_example =
    build_install_command-vetted (codes "/usr/bin/python") (codes "nmap") "apt" (some (codes "7.9"))
      (codes "apt-get" ∷ codes "install" ∷ codes "-y" ∷ codes "nmap=7.9" ∷ []) apt_made

nmap_matches : matches 127 (codes "nmap") ≡ true
unfolding matches codes
nmap_matches = refl

nmap_plain : all is_name_char (codes "nmap") ≡ true
unfolding is_name_char codes
nmap_plain = refl
