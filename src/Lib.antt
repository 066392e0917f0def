-- ===== src/Lib.antt =====
-- Verification library of models-utils: the playbook expressions and templates, the provisioning
-- runs and jobs, the resolution of a run, the guards around them, the workflow engine's order and
-- triggers, and the network graph.
--
-- The program is a library for the services of an internet provider. A playbook describes how a
-- device is configured in phases and may compute integers from variables. A provisioning run takes
-- the playbooks along a service's path through the network graph, asks the gates, plans one entry
-- for each device and phase, and queues one child job at a time; a worker settles a child and
-- calls advance_run, which queues the next child, starts a rollback or closes the run. Workflows
-- react to changed rows and run their steps in the order of a graph.
--
-- Expr models database_utils/utils/playbook_expr.py. Codes has ExprError's codes and
--   is_secret_name; Lexer _tokenize; Parser _Parser, parse and names; Eval _bounded, _trunc_div,
--   _evaluate and coerce_operand; Block evaluate_all. A run of this code is a Result: a value, an
--   ExprError, or a KeyError. The tokenizer has fuel for each character, the parser for four calls
--   at each token and five more, and the walk of names for each node; the theorems on returned or
--   raised results prove that this is enough. Printer has a printer to compare the parser with.
-- Runs models database_utils/utils/provisioning_runs.py. Rows has the columns of
--   database_utils/models/isp.py that it uses; Plan the plan (with job_steps of
--   database_utils/schemas/playbook.py); Session the state, _queue_child and close_run; Logs what a
--   child's log tells; Rollback _plan_rollback to _enter_rollback; Finish the ends of a run; Advance
--   advance_run; Office the office actions; Repair repair_stranded_runs for one candidate; Open
--   create_run. The state, Session, is the locked run, the other runs, the jobs and the tables
--   touched; ids are numbers and JSON columns records. Moves, AdvanceLaws, Laziness, PlanLaws,
--   LogLaws, FinishLaws, RepairLaws and OpenLaws hold the proofs; UndoSteps and UndoLaws those on
--   what a rollback plans, OfficeGuards, OfficeLaws, RetryItems, RetryEnds and RetryLaws those on the
--   office actions; Trace and Lifecycle those on a run as a sequence of steps.
-- Jobs models database_utils/utils/provisioning_jobs.py: Finish finish_job with its follow-ons,
--   Parked fail_parked. Which follow-ons raise in their savepoints is an argument.
-- Template models database_utils/utils/playbook_template.py: Errors the table of filters, Filters
--   what they do, Parser parse_body, Render TOKEN_SHAPE and what goes over its matches, Variables
--   resolve_variables. The parser has fuel for each argument and for one filter more than allowed,
--   which WellFormed proves to be enough. Captures and Redaction model the gate of captures and the
--   redaction of secrets of database_utils/utils/playbook_render.py. NameLaws, RoundTrip, FilterLaws,
--   RenderLaws, CheckLaws, MacLaws, ReservedLaws, CaptureLaws, KeepLaws, MergeLaws, RedactLaws and SecretLaws
--   hold the proofs.
-- Policy models the guards: Transport database_utils/utils/transport.py, Gates
--   database_utils/utils/provisioning_gates.py, Permissions database_utils/utils/permission_utils.py
--   and Billing database_utils/utils/tier_limits.py. Rows that a query finds are arguments.
-- Workflow models database_utils/utils/workflow_engine.py: Triggers the search for workflows and
--   its conditions, Kahn the loop of execute_workflow and detect_cycle, with the steps' effects as
--   an argument. The loop has fuel for each step; KahnLoop proves that this is enough.
-- Graph models database_utils/utils/network_graph.py: a recursive query is a walk with
--   MAX_PATH_DEPTH levels.
-- Resolution models database_utils/utils/provisioning_resolution.py: Rows the rows that the queries
--   find, which are arguments; Outcome ResolutionError and the errors of a refusal; Nodes a node with
--   its playbook, ports and frame; Shared the shared variables; Tokens what a playbook reads; Explain
--   _Explainer and _port_fact_drift; Refusals _refusals; Resolve resolve_provisioning. Patterns are
--   readers of their own. It uses Graph for the path, Expr for computed blocks and Template for
--   tokens. Ready, Exact, StepLaws and ResolveLaws hold the proofs.
-- Prelude has what they share: tests on numbers, lists, texts, dictionaries and integers. Texts are
--   lists of code points. Each part's Examples has tests and instances of its theorems.
--
-- Not modelled: prose in error details, the idempotency key of a row (only how it is composed),
-- the run's mode and secrets, who triggered a run, the JSON form of run.error, the savepoints and
-- row locks of the database, the typed values of a client's custom fields, the dump of a definition,
-- the rendering of whole steps, the tables of str.upper and str.lower (arguments), the steps' actions
-- of the workflow engine, float limits of a tier, and everything that only does input or output.
pub mod Prelude
pub mod Expr
pub mod Runs
pub mod Policy
pub mod Template
pub mod Jobs
pub mod Workflow
pub mod Graph
pub mod Resolution
