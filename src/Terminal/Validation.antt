-- ===== src/Terminal/Validation.antt =====
-- Request validation (services/terminal/validation.py). Lengths count code points, as `len` does.
use cyber_tracker_ai.Base.{
  ℕ, ◌≤◌, ◌<◌, ◌≡◌, ◌↔◌, ◌⊎◌, inl, inr, Bool, true, false, not, ◌&&◌, ◌||◌, Option, none, some,
  List, [], ◌∷◌, ◌++◌, map, arith, ltb, ◌==◌, nat_eq, string_eq, if◌then◌else◌, Bool-cases, length,
  any, last?,
}
use cyber_tracker_ai.Base.Dict.{Dict, get}
use cyber_tracker_ai.Base.Text.{
  Text, codes, contains, starts_with, starts_with-eq-append, text_eq, text_beq_iff, fold,
}
use cyber_tracker_ai.Base.Result.{Result, ok, err}

pub data ValidationError : Type 0 where
  empty_command too_many_arguments argument_too_long outside_workspace : ValidationError

abbrev max_command_args : ℕ
max_command_args = 64

abbrev max_arg_length : ℕ
max_arg_length = 4096

-- That `argv` is a list of strings is its type here.
unfoldable pub validate_argv : List Text → Result ValidationError (Unit {0})
validate_argv [] = err empty_command
validate_argv argv =
    if ltb max_command_args (length argv)
    then err too_many_arguments
    else if any (λ arg. ltb max_arg_length (length arg)) argv
    then err argument_too_long
    else ok tt

-- The alternatives of `_SECRET_KEY_PATTERN` that may stand anywhere.
abbrev secret_words : List Text
secret_words =
    codes "secret"
    ∷ codes "token"
    ∷ codes "password"
    ∷ codes "passwd"
    ∷ codes "apikey"
    ∷ codes "api_key"
    ∷ codes "api-key"
    ∷ codes "privatekey"
    ∷ codes "private_key"
    ∷ codes "private-key"
    ∷ codes "credential"
    ∷ []

-- `_KEY$`: at the end, or before a last line feed.
unfoldable pub ends_with_key : Text → Bool
ends_with_key [] = false
ends_with_key (c ∷ cs) =
    (c ∷ cs) == codes "_key" || (c ∷ cs) == codes "_key" ++ 10 ∷ [] || ends_with_key cs

-- `_SECRET_KEY_PATTERN.search(key)`.
unfoldable pub is_secret : Text → Bool
is_secret key =
    let folded = map fold key in
    any (λ word. contains word folded) secret_words || ends_with_key folded

unfoldable pub filter_environment : Dict Text Text → Dict Text Text
filter_environment [] = []
filter_environment ((key, value) ∷ rest) =
    let kept = filter_environment rest in if is_secret key then kept else (key, value) ∷ kept

-- An override survives the filter, unchanged, exactly if its name does not look like a secret.
pub get-filter_environment :
    (env : Dict Text Text) (key : Text)
    → get (filter_environment env) key ≡ (if is_secret key then none else get env key)
unfolding filter_environment get
get-filter_environment [] key = ground arith
get-filter_environment ((k, v) ∷ rest) key =
    ground (arith, text_beq_iff k key, get-filter_environment rest key)

-- `os.path.isabs` and `os.path.join` of POSIX.
unfoldable pub isabs : Text → Bool
isabs path = starts_with (codes "/") path

abbrev ends_with_slash : Text → Bool
ends_with_slash path = elim (last? path) [ none ↦ true | some c ↦ c == b'/' ]

unfoldable pub join : Text → Text → Text
unfolding isabs
join root path =
    if isabs path
    then path
    else if ends_with_slash root
    then root ++ path
    else root ++ codes "/" ++ path

-- `realpath` reads the file system, and is a parameter.
module _ (realpath : Text → Text) where
  unfoldable pub resolve_within : Text → Text → Result ValidationError Text
  resolve_within root path =
      let resolved = realpath (if isabs path then path else join root path) in
      if not (resolved == root) && not (starts_with (root ++ codes "/") resolved)
      then err outside_workspace
      else ok resolved

  unfoldable pub validate_working_directory : Option Text → Text → Result ValidationError Text
  unfolding resolve_within
  validate_working_directory none workspace_root = ok (realpath workspace_root)
  validate_working_directory (some path) workspace_root =
      let root = realpath workspace_root in
      let resolved = resolve_within root path in
      if path == [] || path == codes "." then ok root else resolved

  -- Whatever the file system says, an accepted directory is the resolved workspace root or stands
  -- below it.
  pub validate_working_directory_confined :
      (path : Option Text) (workspace_root p : Text)
      → validate_working_directory path workspace_root ≡ ok p
      → (p ≡ realpath workspace_root)
        ⊎ ((rest : Text) × (p ≡ (realpath workspace_root ++ codes "/") ++ rest))
  unfolding validate_working_directory
  validate_working_directory_confined none workspace_root p h = inl (ground arith)
  validate_working_directory_confined (some path) workspace_root p h =
      elim (Bool-cases (starts_with (realpath workspace_root ++ codes "/") p)) [
        | inl below ↦ inr (starts_with-eq-append _ p below)
        | inr other ↦ inl (ground (arith, text_beq_iff p (realpath workspace_root)))
      ]

-- An argument vector is accepted exactly if it is not empty, has at most 64 arguments, and none of
-- them is longer than 4096 characters.
pub validate_argv_iff :
    (argv : List Text)
    → (validate_argv argv ≡ ok tt)
      ↔ ((0 < length argv) × (length argv ≤ 64) × (any (λ arg. ltb 4096 (length arg)) argv ≡ false))
unfolding validate_argv
validate_argv_iff [] = (λ h. ground arith, λ h. ground arith)
validate_argv_iff (a ∷ argv) = (λ h. (ground arith, ground arith, ground arith), λ h. ground arith)
