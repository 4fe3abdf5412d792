-- ===== src/Lib.antt =====
-- The logic of Pulp, a host for WebAssembly cells, as definitions that run, and what holds of them.
--
-- The host reads which cells an application has and which of them needs which, plans their start
-- order, decides which of them share an instance, resolves their modules against a registry, gives each
-- cell a scope and the extensions that it declares, supervises it, lets applications call each other, and
-- replaces a running set of cells by another in one transaction. A controller in front of it lets only
-- assessed and approved changes through.
--
-- Parts:
-- * `Dependency.Plan` is `Build` of internal/dependency/plan.go: validation, the level loop and the
--   plan with its start and stop orders. `Dependency.Collapse` is `Collapse` of collapse.go, which
--   hands a physical graph to `build`. `Dependency.Scheduler` is `Execute` of scheduler.go; the
--   completions of the workers are an argument, in the order in which the channel gives them.
-- * `Manifest.Fields` and `Manifest.Cells` are `normalize` of internal/manifest/manifest.go with the helpers
--   it calls, `normalizeSHA256` of digest.go among them; `Manifest.Config` is its `setConfigPath` and the
--   loop over `ConfigEnv`. `Manifest.Sets` is `buildSet` of batch.go, which calls `Dependency.Plan`.
--   `Manifest.Placements`, `Manifest.Units` and `Manifest.Artifacts` are `buildAppPlacements` and
--   `buildExecutionUnits` of app.go with what they call: `Load`, and `verifyWASMDigest` of digest.go.
-- * `Fusion.Plan` is internal/fusion/plan.go, on the cells that `Manifest.Cells` makes.
-- * `Composition.Contracts` is composition/contracts.go.
-- * `Reconcile.Diff` and `Reconcile.Transaction` are `diff` and `ReconcileWithEvidence` of
--   internal/reconcile/reconciler.go. A `Host` gives the answers of `Lifecycle` and `Recorder`, which
--   may depend on the calls made before; the state keeps those calls in order. `Reconcile.Journal` is
--   the chain of entries of file_journal.go, in memory and in the file with lines that are written in
--   part or not synced, and `RecoveryState`.
-- * `Registry.Version` is the part of registry/model.go on versions and requirements, with uint64
--   arithmetic modulo 2 ^ 64. `Registry.Store` has module names, manifests and locks, and
--   `Registry.Resolve` and `Registry.Verify` are `Resolve`, with `solve` and `checkCycles`, and `Verify`
--   of registry/resolve.go.
-- * `Ext.Scope` and `Ext.Factory` are ext/scope.go, with `EffectiveScope` of ext/ext.go;
--   `Ext.Providers` is `SelectCapabilities` of ext/ext.go; `Ext.Grants` is ext/placement_grant.go.
-- * `Run.Endpoints` is run/endpoint_registry.go, an index by resource and one by front door.
-- * `Run.CrossCalls` is run/cross_application.go. Its part `Steps` is the relation between the states of
--   the registry with the calls and the withdrawals that are under way.
-- * `Host.Supervisor` is internal/host/supervisor.go. Its parts `History` and `Monitor` have the
--   overlapping calls of one supervisor, and `MonitorLiveness` with the calls of others between any two
--   of its loads and stores.
-- * `AiControl.Proposal` and `AiControl.Controller` are aicontrol/model.go and controller.go: proposals and
--   evidence, and `Assess`, `Deploy`, `Rollback` and `StaticPolicy`, by what the ports answer.
-- * `Prelude` has what all of them share, and `Tests` has runs at fixed inputs.
--
-- Conventions. A Go string is the list of its code points (`Text`), so that strings which are not
-- UTF-8 have no counterpart. A map is an association list with one entry for a key. A call that
-- returns an error beside its result is a `Result`, and an error keeps the names in its message, not
-- the wording. A mutex makes the code under it one step. What packages outside the repository answer
-- is a parameter: the digests of SHA-256 and the JSON under them (`Digests`, `Hashes`),
-- strings.ToLower, paths and the environment (`Platform`), decoded files and their digests (`Sources`),
-- reflect.DeepEqual on configurations, the contexts, clocks and workers of the scheduler and the
-- supervisor.
--
-- Fuel. The level loop of `Build` gets one unit more than there are items; a level that is not
-- empty starts at least one item that was not started before. The queue of `diff` gets the
-- number of nodes of both plans, that of its first entries, and one; a node enters the queue only when
-- it is marked for the first time. `solve` takes its fuel as an argument, one unit for each module that
-- is chosen and one more, and reports the end of it as an error of its own; `checkCycles`
-- gets two units more than modules are chosen, the depth to which its visits can nest. The other
-- loops are by recursion on their lists.
--
-- Not modelled: the registry's files and HTTP services, the decoding of the manifests' TOML, what files hold,
-- the rest of an application's manifest and the graph of a host, the WebAssembly runtime and its snapshots,
-- the artifacts of fusion, the commands of cmd/ and internal/pulpcli, and the wiring in run/. They are input
-- and output round the parts above, or code on top of libraries.
pub mod Prelude
pub mod AiControl
pub mod Manifest
pub mod Fusion
pub mod Composition
pub mod Ext
pub mod Host
pub mod Dependency
pub mod Reconcile
pub mod Registry
pub mod Run
pub mod Tests
