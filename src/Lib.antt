-- ===== src/Lib.antt =====
-- The governance core of the Citadel runtime (apps/runtime/citadel): what decides whether an
-- agent's action may run, and what records the decision.
--
-- An action goes through `Kernel.handle` (execution/kernel.py). The kernel looks for an earlier
-- decision of the same idempotency key, stores the action, scans its payload, resolves a policy
-- snapshot, asks the precedence chain (kill switch, then capability, then policy), checks the
-- tenant's budgets, asks whether approval is required, and executes. Every end writes a terminal
-- decision and an event of a hash-chained audit log. The token side issues capability tokens from
-- governance decisions; the verifier accepts a token only through its linked decision. The
-- orchestration runtime asks the vault whether a decision still gives authority and sends the actions
-- of children, of new actors and of parallel branches through the kernel. The
-- decision engine makes governance decisions: it merges the answer of a policy backend with the
-- constraints of a trust engine. The trust score of an agent is computed from its record and kept in
-- snapshots, and a rate limit stands in front of the HTTP interface.
--
-- Paths below are under apps/runtime/citadel.
--   Values, Actions          actions/models.py, and the dictionaries of payloads and contexts
--   Exec                     methods that change a state and may raise; Exec.Keeps, Exec.Returns,
--                            Exec.Leaves, Exec.Post and Exec.Ends hold the rules for what a method
--                            keeps, what it returns and leaves, and what it may raise
--   Db                       the tables as lists, newest row first, and what is outside the program
--   Repository               core/repository.py, with consume_capability and the triggers of
--                            audit_events of db/schema.sql;
--                            Repository.Chain (the audit log) and Repository.Consume (uses)
--   PolicyRules, PolicyResolver   services/policy_resolver.py
--   PolicyControls           services/policy_controls.py
--   Approvals                services/approval_service.py
--   Capabilities             services/capability_service.py
--   AuditService             services/audit_service.py
--   GovernanceDecision       tokens/governance_decision.py
--   KillSwitch               tokens/kill_switch.py
--   Vault                    tokens/token_vault.py and the derivation of tokens/governance_token.py
--   Verifier                 tokens/token_verifier.py
--   DecisionEngine           tokens/decision_engine.py
--   ExecutionMiddleware      tokens/execution_middleware.py, with the events of tokens/audit_trail.py
--   Precedence               utils/precedence.py
--   Calendar, Budgets, CostControls   commercial/cost_controls.py
--   PromptInjection          security/prompt_injection.py
--   TrustBands               agent_identity/trust_bands.py
--   Executor, Kernel         execution/executor.py, execution/kernel.py
--   Orchestration            execution/orchestration.py: Scope (_is_narrower_scope), Introspection,
--                            Lineage (the child's action), Delegation, Handoff and Gather
--   TrustScore               agent_identity/trust_score.py and trust_audit.py: Snapshots (with the
--                            audit), Store (compute_and_store, operator_override) and Batch
--                            (evaluate_all)
--   IdentityManager          agent_identity/identity.py; Auth (agent_identity/auth.py)
--   RateLimit                middleware/rate_limit.py: the token bucket, the limiter in memory and its
--                            keys; Redis (_check_redis) and Middleware (the two dispatch methods)
--   Scenarios                tests on a small tenant
-- The modules named LogKept show that a component's reads and writes keep each predicate of the
-- audit log and of the vault's tables that Repository.Frame describes.
--
-- A method is a function from the state to its result, a value or an exception, and the new state:
-- what was written before an exception stays written. A database transaction that fails is written
-- as a method that writes nothing before it raises. `Env` holds what the program takes from outside:
-- identifiers, the instant, the hash, the JSON functions, the regular expressions, what other
-- requests commit while one sleeps, and what the deployed constraints of audit_events refuse, since
-- the event types that db/schema.sql admits are fewer than those that the orchestration writes. In
-- the same way `TrustEnv` holds what the tables of the trust score refuse, since
-- db/migrations/017_trust_score_model.sql admits the bands in upper case only. No law is assumed of
-- them beyond what a theorem states.
--
-- The kernel's poll for the decision of a duplicate runs the source's 50 rounds, by recursion on
-- the rounds left. The search for the year of an instant has fuel above the number of days, and the
-- search for the month has 11 rounds, one less than the months of a year. `evaluate_all` has fuel
-- above the number of agents, since each page but the last holds one. The requests to the limiter are
-- a sequence, since a bucket's lock and the limiter's own let one through at a time.
--
-- Not modelled: primary and foreign keys, constraints of the other tables (the enum of the decisions'
-- status among them, which has no DRY_RUN) and connection failures of PostgreSQL, row-level security
-- beyond the filter by tenant, rounding of floating-point numbers (amounts, scores and the tokens of a
-- bucket are scaled integers, and a spend limit that a multiplier reduces is cut to an integer, as the
-- rate limit is), bracket classes of glob patterns, a precedence chain without a repository, the
-- tenant that a provider of the vault gives where the caller names none, Unicode white space, and the
-- parts that only print rows. The verification cache of agents, the interleavings of
-- the branches of a gather, the HTTP routers, dashboards and client packages are outside.
pub mod Prelude
pub mod Values
pub mod Exec
pub mod Actions
pub mod GovernanceDecision
pub mod PolicyRules
pub mod Budgets
pub mod Db
pub mod Repository
pub mod PolicyResolver
pub mod Approvals
pub mod Capabilities
pub mod PolicyControls
pub mod AuditService
pub mod KillSwitch
pub mod Vault
pub mod Verifier
pub mod DecisionEngine
pub mod ExecutionMiddleware
pub mod Precedence
pub mod Calendar
pub mod CostControls
pub mod PromptInjection
pub mod Executor
pub mod Kernel
pub mod Orchestration
pub mod TrustBands
pub mod TrustScore
pub mod IdentityManager
pub mod RateLimit
pub mod Scenarios
