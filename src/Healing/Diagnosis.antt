-- ===== src/Healing/Diagnosis.antt =====
-- The diagnosis of a failure (services/self_healing/diagnosis.py, models.py). A category is the
-- source's string; a root cause is a constructor in place of its sentence.
use cyber_tracker_ai.Base.{
  String, Bool, not, ◌&&◌, Option, none, some, List, [], ◌∷◌, ◌++◌, map, ltb, ◌==◌, nat_eq,
  string_eq, if◌then◌else◌, length, any,
}
use cyber_tracker_ai.Base.Int.{ℤ, is_zero}
use cyber_tracker_ai.Base.Text.{
  Text, codes, contains, starts_with, fold, take_while, drop, is_space,
}

pub data DiagnosisConfidence : Type 0 where
  high medium low unknown : DiagnosisConfidence

pub data RootCause : Type 0 where
  policy_denied timeout_exceeded package_manager_failed no_matching_version : RootCause
  lacked_permission not_on_path network_failed out_of_space bad_arguments no_pattern : RootCause
  package_unavailable : Text → RootCause
  exit_status : ℤ → RootCause

pub record Diagnosis : Type 0 where
  pub error_category : String
  pub root_cause : RootCause
  pub confidence : DiagnosisConfidence

pub record FailureSignals : Type 0 where
  pub stderr : Option Text
  pub stdout : Option Text
  pub exit_code : Option ℤ
  pub timed_out : Bool
  pub policy_denied : Bool
  pub error_category : Option String

-- `value or default` on texts and on categories.
abbrev pub or_empty : Option Text → Text
or_empty none = []
or_empty (some t) = t

abbrev or_category : Option String → String → String
or_category none default = default
or_category (some c) default = if c == "" then default else c

abbrev locate_words : Text
locate_words = codes "unable to locate package "

-- The group of `unable to locate package (\S+)`, where the pattern first matches.
unfoldable pub missing_package : Text → Option Text
missing_package [] = none
missing_package (c ∷ cs) =
    let here = c ∷ cs in
    let token = take_while (λ x. not (is_space x)) (drop (length locate_words) here) in
    let later = missing_package cs in
    if starts_with locate_words (map fold here) && ltb 0 (length token) then some token else later

-- A pattern of plain alternatives under `re.IGNORECASE`.
unfoldable mentions : List Text → Text → Bool
mentions words text = any (λ w. contains w (map fold text)) words

pub record Hint : Type 0 where
  pub words : List Text
  pub category : String
  pub cause : RootCause
  pub confidence : DiagnosisConfidence

abbrev hint : List Text → String → RootCause → DiagnosisConfidence → Hint
hint words category cause confidence = record {
  words = words;
  category = category;
  cause = cause;
  confidence = confidence;
}

-- `_DIAGNOSIS_HINTS` after its first entry, in order.
abbrev diagnosis_hints : List Hint
diagnosis_hints =
    hint (codes "e: package" ∷ codes "e: unable to fetch" ∷ []) "package_manager_failure"
      package_manager_failed medium
    ∷ hint
        (codes "could not find version that satisfies"
          ∷ codes "could not find a version that satisfies"
          ∷ [])
        "incompatible_version" no_matching_version high
    ∷ hint
        (codes "permission denied"
          ∷ codes "access is denied"
          ∷ codes "operation not permitted"
          ∷ [])
        "permission_issue" lacked_permission high
    ∷ hint
        (codes "no such file or directory"
          ∷ codes "command not found"
          ∷ codes "not recognized"
          ∷ [])
        "missing_executable" not_on_path high
    ∷ hint
        (codes "connection refused"
          ∷ codes "connection reset"
          ∷ codes "network is unreachable"
          ∷ codes "could not resolve"
          ∷ [])
        "network_connectivity" network_failed medium
    ∷ hint (codes "disk" ∷ codes "no space left on device" ∷ []) "disk_space" out_of_space high
    ∷ hint (codes "invalid argument" ∷ codes "unrecognized option" ∷ []) "invalid_argument"
        bad_arguments medium
    ∷ []

abbrev diagnosed : String → RootCause → DiagnosisConfidence → Diagnosis
diagnosed category cause confidence = record {
  error_category = category;
  root_cause = cause;
  confidence = confidence;
}

-- What is left when no pattern matches.
unfoldable from_exit_code : Option ℤ → Option String → Diagnosis
from_exit_code none category = diagnosed (or_category category "unknown") no_pattern unknown
from_exit_code (some code) category =
    if is_zero code
    then diagnosed (or_category category "unknown") no_pattern unknown
    else diagnosed (or_category category "nonzero_exit") (exit_status code) low

unfoldable from_hints : Text → List Hint → Diagnosis → Diagnosis
unfolding mentions
from_hints text [] otherwise = otherwise
from_hints text (h ∷ hs) otherwise =
    let rest = from_hints text hs otherwise in
    if mentions h.words text then diagnosed h.category h.cause h.confidence else rest

unfoldable pub from_output : Text → Diagnosis → Diagnosis
unfolding from_hints
from_output text otherwise = elim (missing_package text) [
  | some token ↦ diagnosed "missing_package" (package_unavailable token) high
  | none ↦ from_hints text diagnosis_hints otherwise
]

unfoldable pub diagnose : FailureSignals → Diagnosis
unfolding from_exit_code
diagnose signals =
    if signals.policy_denied
    then diagnosed "policy_restriction" RootCause.policy_denied high
    else if signals.timed_out
    then diagnosed "timeout" timeout_exceeded high
    else from_output (or_empty signals.stderr ++ 10 ∷ or_empty signals.stdout)
        (from_exit_code signals.exit_code signals.error_category)
