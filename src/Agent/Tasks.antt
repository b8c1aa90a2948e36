-- ===== src/Agent/Tasks.antt =====
-- The registry of the tasks of the orchestrator (services/agent_orchestrator/registry.py), and the
-- creation of a task in it (orchestrator.py).
use cyber_tracker_ai.Base.{
  ℕ, suc, String, Option, none, some, List, [], ◌∷◌, nat_eq, if◌then◌else◌, leb,
}
use cyber_tracker_ai.Base.Dict.{Dict, get, put}
use cyber_tracker_ai.Base.Text.{Text}
use cyber_tracker_ai.Base.Result.{Result, ok, err}
use cyber_tracker_ai.Agent.Models.{AgentBudgetConfig, is_over}
use cyber_tracker_ai.Agent.Orchestrator.{Agent}
use cyber_tracker_ai.Agent.Orchestrator.Reachable.{create_state}

abbrev AgentTaskRegistry : Type 0
AgentTaskRegistry = Dict ℕ Agent

pub data TaskError : Type 0 where
  concurrent_task_limit task_not_found : TaskError

unfoldable pub count_active : AgentTaskRegistry → ℕ
count_active [] = 0
count_active ((id, agent) ∷ tasks) =
    let rest = count_active tasks in if is_over agent.state.phase then rest else suc rest

unfoldable list_tasks : AgentTaskRegistry → List Agent
list_tasks [] = []
list_tasks ((id, agent) ∷ tasks) = agent ∷ list_tasks tasks

unfoldable get_task : ℕ → AgentTaskRegistry → Result TaskError Agent
get_task id tasks = elim (get tasks id) [ none ↦ err task_not_found | some agent ↦ ok agent ]

unfoldable create_task :
    AgentBudgetConfig
    → ℕ
    → ℕ
    → Option Text
    → Option Text
    → String
    → AgentTaskRegistry
    → Result TaskError Agent × AgentTaskRegistry
create_task config fresh now target target_type status tasks =
    if leb config.max_concurrent_tasks (count_active tasks)
    then (err concurrent_task_limit, tasks)
    else (
      ok (create_state fresh now target target_type status),
      put tasks fresh (create_state fresh now target target_type status),
    )
