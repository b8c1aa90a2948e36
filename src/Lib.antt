-- ===== src/Lib.antt =====
-- A verification library of CYBER-TRACKER-AI, an agent that plans security work, asks for approval,
-- and runs vetted commands through a terminal engine.
--
-- The parts, and how they call each other. The agent orchestrator (services/agent_orchestrator) asks
-- a model for one structured action at a time, puts it through its gate, waits for the user's
-- approval, and hands it to the tool services, the installation service or the terminal engine. The
-- installation service (services/installation) plans, starts and verifies a package installation by
-- commands of fixed templates. The terminal engine (services/terminal) validates a request, asks
-- whether the policy engine's decision lets it run, and drives an adapter. The policy engine
-- (services/policy) decides on a target and a registered action type. Tools are verified and gated
-- (services/tools) before they are installed. The healing engine (services/self_healing) diagnoses
-- failures and proposes a strategy. The Termux services (services/termux, apps/api/app/ws) give
-- devices their tokens, keep their connections and send them commands, which the connector on the
-- device (apps/termux_connector) checks again and runs. The chat (services/agent) sends a
-- turn of a conversation to a model, and validates what it answers.
--
-- Files. Each operation carries the name of the function it models.
--   Base               shared names; dictionaries as association lists in insertion order, texts as
--                      lists of code points, UTF-8, JSON values, results, signed numbers
--   Policy             services/policy/engine.py; Policy/Verdicts: what each verdict means
--   Terminal/Models    services/terminal/models.py, config.py, audit.py
--   Terminal/Sessions  session_manager.py; Sessions/Capacity and Sessions/Activity: its properties
--   Terminal/Validation, Terminal/Output, Terminal/Templates
--                      validation.py; the capped reader of adapters/local_process.py;
--                      command_templates.py, with Templates/Injection on what its patterns admit
--   Terminal/Controller, Terminal/Commands, Terminal/Engine, Terminal/Interleavings
--                      controller.py; the records of engine.py and models.py; engine.py, whose
--                      execute is `begin`, up to the await of the adapter, and `finish`, after it;
--                      its calls in any order. Engine/Authorization is about `begin`,
--                      Engine/Accounting about all interleavings
--   Tools              services/tools/verification.py with models.py: Verification; policy.py:
--                      Eligibility; registry.py: Registry, with Registry/Names on its names
--   Healing            services/self_healing: Diagnosis, Planner, History (with engine.py)
--   Agent/Models, Agent/Gate, Agent/Recovery
--                      models.py, actions.py, budget.py; policy_gate.py; recovery.py
--   Agent/Orchestrator orchestrator.py and analysis.py for one task: the lifecycle here, the actions
--                      in Orchestrator/Running and Actions, failures in Recovering, and the step in
--                      Step: `step`, up to an await of the reasoner or of a service, and `land`,
--                      after it. Reachable: every task that operations lead to, with the steps that
--                      wait, any of which may be the next to land;
--                      Orchestrator/Safety, Budgets, Approval and Failures: properties
--   Agent/Tasks        registry.py and create_task
--   Termux/Pairing     services/termux/pairing.py; Pairing/Tokens: the service against the list of
--                      what it issued
--   Termux/Pending, Manager, Messages, Gateway, Adapter
--                      connection_manager.py: the output of a command, the connections and the
--                      commands in flight, the inbound messages; ws/termux_gateway.py; adapter.py.
--                      Termux/Calls: their calls in any order, and properties of those
--   Termux/Connector   apps/termux_connector/cyberai_termux.py: the checks, Running and Client
--   Installation       service.py, models.py and verifier.py for one request: Models, Requests,
--                      Checking and Service; Attempts and Outcomes are the properties.
--                      readiness.py: Readiness; environment.py and planner.py: Planner;
--                      request_installation: Requesting
--   Chat               services/agent/schemas.py: the models in Schemas, their validation and
--                      serialisation in Validation, the schema for the provider in Gemini;
--                      conversation_context.py: Context; prompts.py: Prompts; retry.py: Retry;
--                      chat_pipeline.py: Pipeline
--   Examples           concrete inputs and tests
--
-- Conventions. State is a record that operations take and give back, beside a `Result` whose error
-- is what Python raises; what was written before a raise stays written. A clock reading, a fresh
-- identifier and a drawn secret are arguments, and so is what the environment answers: the adapter,
-- realpath, the model's decision, the registries, SHA-256. A text that is only shown is kept where
-- it is cheap, and is a constructor in place of its sentence elsewhere; str.lower is the ASCII one.
-- A mutable object that a list or a dictionary shares with local variables is changed in its place
-- there, by its identifier. Every loop is a structural recursion: over a list, over the attempts
-- that are left, and, in the printing of a number, over a fuel of the number and one, where
-- Base/Text shows that any fuel above the number prints the same. A transport is a number, and a
-- message is the JSON value after decoding.
--
-- The awaits of the in-memory registries do not suspend, so that an operation runs whole between the
-- awaits of the reasoner, the tool discovery, the installation service and the terminal engine, at
-- which the agent's steps are split; the calls of the installation service within one installation
-- of an agent are one await.
--
-- Not modelled: a registry of agent tasks over the database, the API, its database and its event
-- hub, the web and Android front ends, the provider clients, process creation, signals, and the
-- WebSocket client of the connector, which are glue around other systems; and so far the discovery
-- and proposals of tools, the report, the memory and the reasoner of the agent, voice control, and
-- the classifier of terminal/recovery.
pub mod Base
pub mod Policy
pub mod Terminal
pub mod Healing
pub mod Tools
pub mod Installation
pub mod Agent
pub mod Chat
pub mod Termux
mod Examples
