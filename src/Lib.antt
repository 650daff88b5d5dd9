-- ===== src/Lib.antt =====
-- The Bass platform (reference/bass): a multi-tenant engine that runs agent workflows with
-- exactly-once side effects, a fail-closed policy gate, budgets, approvals and a durable store.
--
-- A trigger reaches the orchestrator, which creates at most one run for an idempotency key in the
-- store and hands it to the engine. The engine drives the run from node to node: it checks the
-- budget, runs an agent loop, a tool, a branch or an approval, buffers events, and checkpoints run
-- and events in one transaction. Tools are called through connectors with retries and a breaker;
-- their results are kept in the store's ledger, which is read before a mutating tool acts.
--
-- Parts, by file of this library and of the repository:
--   Base, Exec         shared names, tests and lists; programs with a state and errors
--   Errors, Models     reference/bass/errors.py, reference/bass/models.py
--   Value              JSON values and Python dicts, kept in insertion order
--   Host               the clocks, fresh ids, number printing and SHA-256: parameters
--   Redaction          reference/bass/redaction.py; the regular expressions are parameters
--   Store              reference/bass/store.py: five tables as lists of rows, a function per method
--   Store.Interface    reference/bass/store.py, the protocol `Store`: a record that both stores fill
--   Store.Opening      reference/bass/store.py, `open_store`
--   Store.History      a call of the store as data, and sequences of calls by any tenants
--   Budget, Policy     reference/bass/budgets.py, reference/bass/policy.py
--   Metrics, Logging   reference/bass/observability.py
--   Tracing            reference/bass/tracing.py
--   Connector          reference/bass/connectors.py: breaker and `Connector.run`
--   Engine.Tools       reference/bass/tools.py, the registry
--   Accounting         reference/bass/tools.py, the accounting system and the offline model
--   Webhook            reference/bass/webhook.py, and `http_call` of reference/bass/connectors.py
--   Provider           reference/bass/providers.py; the client and JSON are parameters
--   Settings           reference/bass/config.py, reference/bass/secrets.py
--   Engine.AgentLoop   reference/bass/agent.py
--   Engine             reference/bass/workflow.py: Steps has the nodes, Approval `_await_approval`,
--                      Drive the loop and `resume`
--   Orchestrator       reference/bass/orchestrator.py
--   RateLimit          reference/bass/ratelimit.py: both limiters; Redis is a parameter
--   Api                reference/bass/api.py, `ApiService`; reference/bass/runner.py, `resume`
--   Example            reference/bass/example_run.py and reference/bass/example_run_live.py
--   Worker             reference/bass/runner.py and reference/bass/temporal_adapter.py
--   App                reference/bass/api.py, `build_default_app`; and
--                      reference/scripts/export_openapi.py
--   Api.Routes         reference/bass/api.py, the routes of `create_app`
--   Auth               reference/bass/auth.py; HMAC, base64 and JSON are parameters
--   Postgres           reference/bass/store_postgres.py, on the rows of Store
--   Text, Schedule     reference/bass/schedule.py, on the code points of a text
--   Migrate            reference/bass/migrate.py: `Migrator.run` on PostgreSQL, and Migrate.Main the
--                      dialects and `main`
--   Docs               docs/build_site.py; markdown and the regular expressions are parameters
--   Tests              the theorems at concrete inputs
-- A Python method is a function of the same name; a method that the source writes as one body with
-- early returns is split where a value decides what follows, and the parts carry the name of what
-- they do. Exceptions are results of `Result`; a method that changes state passes it on, also when it
-- raises, and `transaction` gives the old database back where the source rolls back.
--
-- Bounds and fuel: amounts of money are natural numbers of millionths of a dollar and seconds are
-- natural numbers, so the rounding of floating point is not modelled; where the policies read an
-- amount from the arguments, infinities and NaN are. The agent loop and the retries recurse on the
-- turns and attempts that are left. The driving loop recurses on fuel, of which `resume` gives it
-- `max_steps + 2`; that is enough, since the budget stops it before.
--
-- Not modelled: the lines that other parts log and the spans they open; opening database files and
-- connections, and the thread locks, so each call of a store is atomic, and a PostgreSQL server
-- serves one process; the network, Temporal, the parsing of requests, row-level security, the texts
-- of the SQL schema, and the dashboard, which is one constant page. The order in which a database
-- engine returns rows that its query holds equal is a parameter.
pub mod Base
pub mod Errors
pub mod Exec
pub mod Value
pub mod Models
pub mod Redaction
pub mod Host
pub mod Store
pub mod Budget
pub mod Policy
pub mod Metrics
pub mod Logging
pub mod Tracing
pub mod Docs
pub mod Connector
pub mod Accounting
pub mod Webhook
pub mod Settings
pub mod Provider
pub mod Engine
pub mod Orchestrator
pub mod Example
pub mod Worker
pub mod App
pub mod RateLimit
pub mod Api
pub mod Migrate
pub mod Postgres
pub mod Text
pub mod Schedule
pub mod Auth
mod Tests
