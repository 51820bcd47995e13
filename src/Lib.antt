-- ===== src/Lib.antt =====
-- The core of the Flyto engine, services/flyto-engine-ce: the packages under internal that decide who may
-- see what and what may be run, that keep the engine alive when the services that it calls fail, that keep
-- its findings up to date, and the queue of scans that its processes under ce share. Paths without a
-- folder are under internal.
--
-- Access. permission/engine.go grants or denies one request by role, visibility and sensitivity
-- (Permission: ResolveAccess is resolve_access, HasPermission is has_permission), permission/inherit.go
-- narrows a chain of workspace, project, folder and resource policies before it asks that check
-- (Permission/Inherit: Resolve is resolve, ResolveAccessChain is resolve_access_chain), and
-- access/access.go decides on features, actions and sensitive evidence (Access: Require is require).
--
-- Entitlement. permission/capabilities.go and permission/edition.go compose the features of a tier, a plan and
-- an organisation, narrow them by the type of the project (Entitlement/Features: applyProjectType is
-- apply_project_type), collect the permissions of a role (Entitlement/Roles: resolveRolePerms is
-- role_perms), and make the snapshot of actions and surfaces that the front end and the handlers read
-- (Entitlement/Actions and Entitlement/Snapshot: resolveCommercialActions is commercial_actions,
-- decorateCommercial is decorate_commercial, ApplyEditionProfile is apply_edition_profile). The YAML files are
-- arguments; Gates and Contract are about actions and the permissions that they need.
--
-- Scans. ceplatform/store.go and ceplatform/workflow.go keep the state of the Community Edition in SQL tables,
-- which are lists of rows here (Platform, Platform/Tables). Platform/Scans has the queue (CreateScan is
-- create_scan, ClaimScan claim_scan, EnqueueDueAutoScans enqueue_due), Platform/Stages the analysis and
-- the report of a complete scan, Platform/Remedies the verification of a remediation, and Platform/Workers the
-- processes of ce (worker-ce, analysis-ce, report-ce, scheduler-ce) as steps in any order, each a
-- transaction or a request. Growth and Inserts are about what such steps do to the table of scans, Safety about
-- runs of steps, Queue about the order of the claims, Requests and Verdicts about single operations.
--
-- Platform/Projects has the users and the projects (Bootstrap is bootstrap, CreateProject create_project,
-- DeleteProject delete_project with what its foreign keys delete), Platform/Connect the repositories
-- (ConnectRepository is connect_repository, ValidatePublicCloneURL is_public_url on what net/url makes of the
-- address), and Platform/Health the health summary (HealthSummary is health_summary, scoreGrade display_score
-- and score_to_grade). Tenancy serves any sequence of such requests, Integrity is about what they keep, Scores
-- about the summary and Sorting about ORDER BY and LIMIT. ceworkflow/workflow.go derives evidence, remediations and paths from a completed scan
-- (Analysis: Analyze is analyze; Coverage and Paths are about its result; its digests are a parameter).
--
-- Identities. ceauth/auth.go makes and verifies tokens and checks passwords (Auth: Mint is mint, Verify is
-- verify, ValidatePassword is validate_password). HMAC, JSON with base64, bcrypt and the classes of Unicode
-- are parameters, with what they are documented to do as hypotheses of Tokens and Passwords.
--
-- Errors. errx/errx.go is the envelope of errors (Errors: Wrap is wrap, HTTPStatus http_status, Write write);
-- an error value is data that says what it wraps.
--
-- Compliance. compliance/compliance.go rates the controls of seven frameworks by what the scans have found
-- (Compliance: checkPass is check_pass, EvaluateFrameworks is evaluate_frameworks over the tables of
-- Compliance/Tables), and compliance/evidence.go binds the evidence for them under one hash
-- (Compliance/Evidence: BuildBinder is build_binder; the hash and the format of a time are parameters).
-- Improvement compares the results of two scans, Counts and Sealed are about one result and one binder.
--
-- Calls of other services. circuit/circuit.go is the circuit breaker (Circuit: Allow, RecordSuccess,
-- RecordFailure and Do are functions from the breaker to the breaker, each with its readings of the
-- clock), circuit/registry.go its registry (Circuit/Registry: pointers are addresses on a heap),
-- httpx/circuit.go the transport that a breaker guards (Circuit/Transport), httpx/retry.go the one that
-- repeats requests (Retry: RoundTrip is round_trip, the base transport, GetBody and the context act on a
-- state of the outside world), and threatcache/threatcache.go the cache in front of the providers
-- (ThreatCache: GetOrFetchCond is get_or_fetch_cond; the store, the hash and the grace are parameters).
--
-- Events. liveevent/hub.go hands the events of a workspace to its subscribers (Hub: the subscriptions
-- are on a heap, each with its buffer; calls and the work of the subscribers' goroutines are steps in
-- any order).
--
-- Findings. vulnescalate/reescalate.go raises severities (Escalation: Evaluate is evaluate; dates are
-- read and numbers printed by a parameter), sla/budget.go and sla/aging.go count breaches and ages (Sla,
-- Sla/Aging: ComputeUsage is compute_usage, AgeBuckets is age_buckets), and canary/canary.go with
-- canary/store_inmem.go flags the scanners whose verdict on a known target changed (Canary:
-- HandleResults is handle_results).
--
-- Background work. scheduler/stagger.go gives each organisation an hour, backoff/backoff.go the wait after
-- failures and freshness/recorder.go the row that says how old a component's data is (Schedule: HourBucket is
-- hour_bucket, NextInterval next_interval, RecordSuccess record_success; Turns is about the first two).
--
-- Leaks. leakscore/leakscore.go rates leaked credentials and identityscore/identityscore.go the gaps of
-- identities (Leaks, Leaks/Identity: ScoreLeakedPrincipal is score_leaked_principal, FreshnessOf
-- freshness_of; of the gaps there are only the definitions).
--
-- Resources. resource/graph.go walks the graph of resources breadth first (Graph: TraverseGraph is
-- traverse_graph, FindImpacted is find_impacted).
--
-- Prelude has the Boolean tests, lists over the native numbers, dictionaries for Go's maps, and the case
-- folding and trimming of strings, exact for ASCII letters and for the white space of Unicode.
--
-- Time and numbers. Instants and durations are natural numbers of nanoseconds. Counters that wrap do so
-- in the model (the hub's sequence, the delay of the retrying transport). Scores and percentages are
-- exact: units of 0.00001 in Escalation, fractions in Sla. Durations that are configured (the delays of
-- backoff, the window of a budget) are not negative, and the window in nanoseconds does not overflow. A run of
-- the canaries reads the clock once. The buckets of Sla/Aging are counted for the totals too. Locks are not modelled: each method is one step.
--
-- Loops. They are structural recursion, on the list that they range over or on the rounds that are left
-- (Retry: `rounds` by what MaxAttempts leaves; `doubled` by the attempt), but for two walks that
-- have their rounds as fuel. Over inherited roles one round more than the entries of the matrix is enough,
-- since the guard of the walk lets no role be met twice; over the graph of resources two rounds for every
-- edge and one more, since every resource is queued once.
--
-- Not modelled: the pages, meters and paywall texts of the snapshot and the validation of the
-- edition's profiles, the logs of scans and the file scanner of the platform, the HTTP handlers before
-- it, the renderings of reports and binders and the texts in them, floating-point scores, lost connections to
-- the database (a stage that cannot be completed is always marked as failed) and requests that interleave inside one operation, the set of refreshes in flight of
-- the cache, RunLoop's ticker, the bridge to PostgreSQL behind the hub (its two ends are steps),
-- logging, metrics, and the packages that are I/O, tables or clients of other services.
mod Prelude
pub mod Circuit
pub mod Permission
pub mod Auth
pub mod Analysis
pub mod Access
pub mod Compliance
pub mod Entitlement
pub mod Errors
pub mod Escalation
pub mod Graph
pub mod Hub
pub mod ThreatCache
pub mod Retry
pub mod Schedule
pub mod Leaks
pub mod Sla
pub mod Canary
pub mod Platform
