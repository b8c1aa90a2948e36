-- ===== src/Termux/Connector.antt =====
-- The program on the device (apps/termux_connector/cyberai_termux.py): what it refuses to run.
-- `realpath` and `isdir` read the file system. A number of JSON is counted in
-- thousandths.
pub mod Agreement
pub mod Running
pub mod Client
use cyber_tracker_ai.Base.{
  ℕ, ◌-◌, Bool, true, false, not, ◌&&◌, ◌||◌, Option, none, some, List, [], ◌∷◌, ◌++◌, ltb, leb,
  ◌==◌, nat_eq, if◌then◌else◌, length, any, min,
}
use cyber_tracker_ai.Base.Int.{pos}
use cyber_tracker_ai.Base.Json.{
  Json, null, bool, number, text, list, mapping, Items, nil, cons, Fields, end, field,
}
use cyber_tracker_ai.Base.Dict.{Dict}
use cyber_tracker_ai.Base.Text.{Text, codes, contains, starts_with, text_eq}
use cyber_tracker_ai.Base.Result.{Result, ok, err, ◌>>=◌}

-- `RefusedError`, by its message.
pub data ConnectorRefusal : Type 0 where
  argv_not_a_list argv_too_long not_a_string argument_too_long nul_byte : ConnectorRefusal
  shell_metacharacters directory_not_a_string outside_roots not_a_directory : ConnectorRefusal
  environment_not_a_mapping environment_not_strings secret_shaped timeout_not_positive :
      ConnectorRefusal

abbrev pub max_argv_length : ℕ
max_argv_length = 64

abbrev pub max_arg_length : ℕ
max_arg_length = 4096

unfoldable pub item_count : Items → ℕ
item_count nil = 0
item_count (cons j js) = ℕ.suc (item_count js)

-- The loop over the parts of `argv`.
unfoldable pub validate_parts : Items → Result ConnectorRefusal (List Text)
validate_parts nil = ok []
validate_parts (cons (text part) rest) =
    let parts = validate_parts rest in
    if ltb max_arg_length (length part)
    then err argument_too_long
    else if any (λ c. c == 0) part
    then err nul_byte
    else do t ← parts; ok (part ∷ t)
validate_parts (cons _ rest) = err not_a_string

abbrev pub is_metacharacter : ℕ → Bool
is_metacharacter c = any (λ d. d == c) (codes ";|&><`$")

-- The test of `argv[0]`, which is there.
unfoldable pub check_program : List Text → Result ConnectorRefusal (List Text)
check_program [] = ok []
check_program (program ∷ args) =
    if any is_metacharacter program then err shell_metacharacters else ok (program ∷ args)

unfoldable pub validate_argv : Json → Result ConnectorRefusal (List Text)
unfolding check_program
validate_argv (list (cons j js)) =
    if ltb max_argv_length (item_count (cons j js))
    then err argv_too_long
    else do parts ← validate_parts (cons j js); check_program parts
validate_argv _ = err argv_not_a_list

-- `DEFAULT_ALLOWED_ROOTS` are `roots`.
abbrev pub is_allowed : List Text → Text → Bool
is_allowed roots resolved =
    any (λ root. resolved == root || starts_with (root ++ codes "/") resolved) roots

module _ (realpath : Text → Text) (isdir : Text → Bool) (roots : List Text) where
  unfoldable pub validate_working_directory : Json → Result ConnectorRefusal (Option Text)
  validate_working_directory null = ok none
  validate_working_directory (text path) =
      let resolved = realpath path in
      if not (is_allowed roots resolved)
      then err outside_roots
      else if not (isdir resolved)
      then err not_a_directory
      else ok (some resolved)
  validate_working_directory _ = err directory_not_a_string

-- `str.upper`, as far as a search for words of capitals and underscores can tell: the small ASCII
-- letters, and the other characters whose capital form holds a capital ASCII letter.
unfoldable pub upper_of : ℕ → Text
upper_of c =
    if leb b'a' c && leb c b'z'
    then (c - 32) ∷ []
    else if c == 0xdf
    then codes "SS"
    else if c == 0x131
    then codes "I"
    else if c == 0x149
    then 0x2bc ∷ codes "N"
    else if c == 0x17f
    then codes "S"
    else if c == 0x1f0
    then b'J' ∷ 0x30c ∷ []
    else if c == 0x1e96
    then b'H' ∷ 0x331 ∷ []
    else if c == 0x1e97
    then b'T' ∷ 0x308 ∷ []
    else if c == 0x1e98
    then b'W' ∷ 0x30a ∷ []
    else if c == 0x1e99
    then b'Y' ∷ 0x30a ∷ []
    else if c == 0x1e9a
    then b'A' ∷ 0x2be ∷ []
    else if c == 0xfb00
    then codes "FF"
    else if c == 0xfb01
    then codes "FI"
    else if c == 0xfb02
    then codes "FL"
    else if c == 0xfb03
    then codes "FFI"
    else if c == 0xfb04
    then codes "FFL"
    else if c == 0xfb05 || c == 0xfb06
    then codes "ST"
    else c ∷ []

unfoldable pub upper : Text → Text
unfolding upper_of
upper [] = []
upper (c ∷ cs) = upper_of c ++ upper cs

abbrev bad_words : List Text
bad_words =
    codes "SECRET"
    ∷ codes "TOKEN"
    ∷ codes "PASSWORD"
    ∷ codes "PASSWD"
    ∷ codes "PRIVATE_KEY"
    ∷ codes "API_KEY"
    ∷ codes "APIKEY"
    ∷ codes "CREDENTIAL"
    ∷ []

unfoldable pub is_secret_shaped : Text → Bool
unfolding upper
is_secret_shaped key = any (λ bad. contains bad (upper key)) bad_words

unfoldable pub validate_fields : Fields → Result ConnectorRefusal (Dict Text Text)
unfolding is_secret_shaped
validate_fields end = ok []
validate_fields (field key (text value) rest) =
    let kept = validate_fields rest in
    if is_secret_shaped key then err secret_shaped else do d ← kept; ok ((key, value) ∷ d)
validate_fields (field key _ rest) = err environment_not_strings

unfoldable pub validate_env_overrides : Json → Result ConnectorRefusal (Dict Text Text)
unfolding validate_fields
validate_env_overrides null = ok []
validate_env_overrides (mapping fields) = validate_fields fields
validate_env_overrides _ = err environment_not_a_mapping

-- `min(float(seconds), float(MAX_TIMEOUT_SECONDS))`, in thousandths.
abbrev max_timeout : ℕ
max_timeout = 120000

unfoldable pub validate_timeout : Json → Result ConnectorRefusal ℕ
validate_timeout null = ok 30000
validate_timeout (number (pos n)) =
    if n == 0 then err timeout_not_positive else ok (min n max_timeout)
validate_timeout (bool true) = ok 1000
validate_timeout _ = err timeout_not_positive
