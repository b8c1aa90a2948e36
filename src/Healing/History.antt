-- ===== src/Healing/History.antt =====
-- The history of healing attempts and the engine over it (services/self_healing/history.py,
-- engine.py, models.py).
use cyber_tracker_ai.Base.{
  ℕ, ◌≤◌, String, ◌≡◌, refl, Bool, true, false, ◌&&◌, Option, none, some, List, [], ◌∷◌, ◌++◌,
  arith, ◌==◌, nat_eq, string_eq, if◌then◌else◌, length, filter, count, count-append,
}
use cyber_tracker_ai.Base.Text.{Text, codes}
use cyber_tracker_ai.Healing.Diagnosis.{Diagnosis, FailureSignals, diagnose}
use cyber_tracker_ai.Healing.Planner.{
  HealingStrategyKind, retry_with_backoff, install_missing_dependency, use_alternative_tool,
  adjust_timeout, reduce_scope, escalate_to_user, abandon, HealingStrategy, HealingPlannerConfig,
  propose, is_automatic, propose_bounded,
}

pub data HealingOutcome : Type 0 where
  pending applied succeeded failed rejected : HealingOutcome

pub record HealingAttempt : Type 0 where
  pub id : ℕ
  pub task_id : ℕ
  pub action_id : Option ℕ
  pub diagnosis : Option Diagnosis
  pub strategy : Option HealingStrategy
  pub outcome : HealingOutcome
  pub note : Text

abbrev HealingHistory : Type 0
HealingHistory = List HealingAttempt

abbrev record_attempt : HealingHistory → HealingAttempt → HealingHistory
record_attempt h attempt = h ++ attempt ∷ []

abbrev of_task : ℕ → HealingAttempt → Bool
of_task task a = a.task_id == task

unfoldable attempts_for_task : HealingHistory → ℕ → HealingHistory
attempts_for_task h task = filter (of_task task) h

-- `a.diagnosis and a.diagnosis.error_category == category`.
abbrev has_category : String → HealingAttempt → Bool
has_category category a = elim a.diagnosis [ none ↦ false | some d ↦ d.error_category == category ]

unfoldable category_history : HealingHistory → ℕ → String → HealingHistory
category_history h task category = filter (λ a. of_task task a && has_category category a) h

-- `f"{attempt.note} | {note}" if attempt.note else note`, where there is a note.
abbrev pub joined : Text → Text → Text
joined old [] = old
joined [] (c ∷ cs) = c ∷ cs
joined (b ∷ bs) (c ∷ cs) = (b ∷ bs) ++ codes " | " ++ c ∷ cs

unfoldable pub update_outcome : HealingHistory → ℕ → HealingOutcome → Text → HealingHistory
update_outcome [] id outcome note = []
update_outcome (a ∷ h) id outcome note =
    let rest = update_outcome h id outcome note in
    let closed : HealingAttempt = record a { outcome = outcome; note = joined a.note note } in
    if a.id == id then closed ∷ h else a ∷ rest

-- `success_rate_for_strategy` as a fraction: the successes and the attempts of the kind.
unfoldable success_rate_for_strategy : (HealingStrategyKind → Bool) → HealingHistory → ℕ × ℕ
success_rate_for_strategy is_kind h =
    let matching =
      filter (λ (a : HealingAttempt). elim a.strategy [ none ↦ false | some s ↦ is_kind s.kind ])
        h in
    (
      count (λ (a : HealingAttempt). elim a.outcome [ HealingOutcome.succeeded ↦ true | _ ↦ false ])
          matching,
      length matching,
    )

abbrev kind_value : HealingStrategyKind → String
kind_value retry_with_backoff = "retry_with_backoff"
kind_value install_missing_dependency = "install_missing_dependency"
kind_value use_alternative_tool = "use_alternative_tool"
kind_value adjust_timeout = "adjust_timeout"
kind_value reduce_scope = "reduce_scope"
kind_value escalate_to_user = "escalate_to_user"
kind_value abandon = "abandon"

-- `[a.diagnosis.error_category for a in prior if a.diagnosis is not None]`.
unfoldable pub prior_categories : HealingHistory → List String
prior_categories [] = []
prior_categories (a ∷ h) =
    let rest = prior_categories h in
    elim a.diagnosis [ none ↦ rest | some d ↦ d.error_category ∷ rest ]

unfoldable pub retries_used : HealingHistory → String → ℕ
retries_used prior category = count (has_category category) prior

-- `fresh` is the identifier of the new attempt.
unfoldable pub heal :
    HealingPlannerConfig
    → ℕ
    → Option ℕ
    → FailureSignals
    → ℕ
    → HealingHistory
    → HealingAttempt × HealingHistory
unfolding attempts_for_task retries_used
heal config task action signals fresh h =
    let d = diagnose signals in
    let prior = attempts_for_task h task in
    let s = propose config d (retries_used prior d.error_category) (prior_categories prior) in
    let attempt : HealingAttempt = record {
      id = fresh;
      task_id = task;
      action_id = action;
      diagnosis = some d;
      strategy = some s;
      outcome = pending;
      note =
          codes "Proposed "
          ++ codes (kind_value s.kind)
          ++ codes " for "
          ++ codes d.error_category
          ++ codes ".";
    } in
    (attempt, record_attempt h attempt)

-- A call of the engine: a failure to heal, or the outcome of an earlier attempt.
pub data Call : Type 0 where
  failure : ℕ → Option ℕ → FailureSignals → ℕ → Call
  result : ℕ → HealingOutcome → Text → Call

unfoldable pub step : HealingPlannerConfig → Call → HealingHistory → HealingHistory
step config (failure task action signals fresh) h = (heal config task action signals fresh h).1
step config (result id outcome note) h = update_outcome h id outcome note

unfoldable pub run : HealingPlannerConfig → List Call → HealingHistory → HealingHistory
run config [] h = h
run config (call ∷ calls) h = run config calls (step config call h)

-- An attempt of the task and the category that runs the command again on its own.
abbrev pub is_retry : ℕ → String → HealingAttempt → Bool
is_retry task category a =
    of_task task a
    && has_category category a
    && elim a.strategy [ none ↦ false | some s ↦ is_automatic s.kind ]

count-is_retry :
    (task : ℕ) (category : String) (h : HealingHistory)
    → count (is_retry task category) h ≤ retries_used (attempts_for_task h task) category
unfolding retries_used attempts_for_task
count-is_retry task category [] = omega arith
count-is_retry task category (a ∷ h) = ground (arith, count-is_retry task category h)

count-update_outcome :
    (task : ℕ) (category : String) (h : HealingHistory) (id : ℕ) (o : HealingOutcome) (note : Text)
    → count (is_retry task category) (update_outcome h id o note) ≡ count (is_retry task category) h
unfolding update_outcome
count-update_outcome task category [] id o note = refl
count-update_outcome task category (a ∷ h) id o note =
    ground (arith, count-update_outcome task category h id o note)

heal_bounded :
    (config : HealingPlannerConfig) (task : ℕ) (category : String) (t : ℕ) (action : Option ℕ)
    (signals : FailureSignals) (fresh : ℕ) (h : HealingHistory)
    → count (is_retry task category) h ≤ config.max_retries
    → count (is_retry task category) (heal config t action signals fresh h).1 ≤ config.max_retries
unfolding heal
heal_bounded config task category t action signals fresh h b =
    let d = diagnose signals in
    let prior = attempts_for_task h t in
    let used = retries_used prior d.error_category in
    let s = propose config d used (prior_categories prior) in
    let new = (heal config t action signals fresh h).0 in
    let c = count-append (is_retry task category) h (new ∷ []) in
    rw c (
      ground (
        arith,
        nat_eq.equals_iff t task,
        string_eq.equals_iff d.error_category category,
        count-is_retry task category h,
        propose_bounded config d used (prior_categories prior),
      ))

step_bounded :
    (config : HealingPlannerConfig) (task : ℕ) (category : String) (call : Call)
    (h : HealingHistory)
    → count (is_retry task category) h ≤ config.max_retries
    → count (is_retry task category) (step config call h) ≤ config.max_retries
unfolding step
step_bounded config task category (failure t action signals fresh) h b =
    heal_bounded config task category t action signals fresh h b
step_bounded config task category (result id outcome note) h b =
    omega (arith, count-update_outcome task category h id outcome note)

-- Whatever failures and outcomes come, the engine proposes at most `max_retries` strategies that run
-- a command again on their own, for each task and each category of failure.
pub run_bounded :
    (config : HealingPlannerConfig) (task : ℕ) (category : String) (calls : List Call)
    (h : HealingHistory)
    → count (is_retry task category) h ≤ config.max_retries
    → count (is_retry task category) (run config calls h) ≤ config.max_retries
unfolding run
run_bounded config task category [] h b = b
run_bounded config task category (call ∷ calls) h b =
    run_bounded config task category calls (step config call h)
      (step_bounded config task category call h b)
