-- ===== src/Lib.antt =====
-- Veduta's core, modelled and proved.
--
-- Veduta is a dashboard server. An integration never holds a credential: it asks the capability
-- broker for a request, the broker authorises it against three policies on one canonical path, and
-- charges it to the budget of the invocation. The scheduler runs each card's integration, validates
-- the card's state before it commits it, backs off and opens a circuit after failures, and
-- fences commits by the generation of the configuration. Rules read the committed card states and
-- fire or resolve alerts after a hold time. One administrator signs in, and opens short windows of
-- privilege. A manifest declares what an integration may do; lowering it under the hard ceilings,
-- locking it and approving it decides the authority an instance runs with, and the digest of a
-- document's canonical form is what the lock compares.
--
-- Parts, and the code each is about (paths from the repository's root):
--   Routepath     internal/connections/routepath. Escape and Canonicalise are canonicalise.go, over
--                 the bytes of a path; Glob is match.go and prefix.go; Template is template.go. An
--                 index out of range is the error `panic`. Units, Split, Reading, Segments and
--                 Inversion say what an accepted path looks like; Canonical, Panics, Matching,
--                 Coverage and Covered have the properties.
--   Capabilities  internal/capabilities. Policy and Authorize are types.go, request.go and
--                 authorize.go; Budget, Headers and Cache the files of those names; Broker is
--                 broker.go and assetref.go: each call's check with its counters, its audited
--                 denials and the cache. Authority, Passing, Invocation and Admission have the
--                 properties.
--                 The record Mime stands for package mime and the lower-casing of strings.
--   Cards         internal/state/cardstate.go (the constructors, Validate) and what the core reads
--                 of internal/widgets: signals, history bindings and the hint of a time to live.
--                 History is Downsample of internal/state/history.go; Window, Series, Stamps, Median,
--                 Drawn and Kept say what it draws; Drawn and Kept measure it against the samples
--                 themselves.
--   Scheduler     internal/scheduler/scheduler.go. Backoff has backoff and jitter; Manager
--                 has commit, RefreshNow and Subscribe; Refresh has refresh in three steps
--                 (begin_refresh, the run, finish_refresh); Apply has Apply and GetCardFor of
--                 internal/storage.
--                 Commits, Reload, Fence, Breaker and Waits have the properties.
--   Rules         internal/rules. Evaluator is Evaluate; Transition is evaluateLocked and Apply.
--                 Fresh, Held and Debounce have the properties.
--   Auth          internal/auth/service.go. Lockout has the attempts of each source, Sessions the
--                 operations of the service; Tracking, Barred and Access have the properties.
--   Outbox        internal/storage/notifications.go and internal/notify/dispatcher.go. Delivery has
--                 the operations on the items and RunOnce; Limits what enters the outbox.
--   Integrations  internal/integrations. Limits and Ceilings are limits.go with internal/config's
--                 LimitDecl; Route and Keys are route.go; Manifest is manifest.go's declarations;
--                 Diff is diff.go; Approve is the lock of lock.go and approve.go. Missing, InFull,
--                 Keys and Ceilings have the properties.
--   App           internal/app/runtime.go: Grant derives an instance's authority from the manifest
--                 and the lock. Parts, Authority, Subset and Approved have the properties.
--   Digest        internal/canonical/canonical.go. Value has the documents, Normal and Text the
--                 canonical form, Yaml the conversion of a YAML node, Load the choice of decoder
--                 and the digest. Runes reads the bytes of a string as Go does, so that a byte that is
--                 not UTF-8 becomes U+FFFD. Same says when two documents say the same, without the
--                 code's own functions; Ends, Panics, Forgets and Faithful have the properties.
--                 Like, Doc, Shown and Meaning lead from a document to its text, and Written, Parts
--                 and Read from the text back to what the document says.
--   Storage       internal/storage/assetcache/cache.go. AssetCache has the rows, the files and the
--                 operations; Evict, Stored and Sound have the properties. Evicting has one round
--                 more than there are rows as fuel, and ends within it.
--   Config        internal/config/yamlmerge.go. Merge has the documents, their merging and
--                 duplicateKeys; Lookup and Layers say what a key path reads after a merge. The file of a node is
--                 kept in the node, not in a map of pointers.
--   Examples      runs at concrete inputs, a module for each part.
--   Prelude       shared names: results, maps with text keys, lists over the native numbers.
--
-- Conventions. Texts that are taken apart are lists of bytes, others are strings. A map is an
-- association list by `lookup`, `insert` and `erase`. Times and durations are natural numbers of
-- nanoseconds, and 0 is the zero time. Uint32 arithmetic of the hash keeps its wrap-around; sums
-- of durations are not bounded, as they are far from 2^63. Locks make each operation one step, so
-- an operation is a function of the state, and a refresh that spans several locked regions is
-- several functions. Loops are structural recursion; the doubling loop of the backoff runs over
-- the rounds that are left. Only evict, above, and yaml_to_any have fuel. A YAML alias may lead
-- back to an enclosing node, so yaml_to_any has 33 rounds, one more than maxYAMLDepth, beyond
-- which the code itself refuses.
--
-- Parameters. SQLite compares times as texts, which is not always their order, so that comparison
-- is an argument. What a run returns, whether a document repeats a secret, the history read back
-- from the store, whether a transaction succeeds and whether a password is right are arguments. A
-- rule's predicate is any program that calls `signal` and `state`, since the expression library
-- is not in the repository. The decoders of YAML and JSON and the hash are arguments of the
-- digest. Float64 arithmetic and the order that sort.Slice makes are arguments of Downsample. The
-- cache's order of rows, whether its file can be read and written and what a fetch gives, if it
-- is a function at all, are arguments, and its database does not fail. Which of the statements of
-- a rotation of credentials the database carries out is an argument; under the other operations on
-- sessions it does not fail.
--
-- Not modelled: SQL, HTTP transport, the WebAssembly, declarative and Docker runtimes, the API's
-- handlers, the rest of the loading of configuration, the loading of manifest files, the pool of
-- password checks, the transports of notifications, goroutines and the worker pool, the
-- coalescing of concurrent fetches, and everything outside the server.
pub mod Prelude
pub mod Routepath
pub mod Capabilities
pub mod Cards
pub mod Scheduler
pub mod Examples
pub mod Rules
pub mod Auth
pub mod Outbox
pub mod Integrations
pub mod Storage
pub mod Config
pub mod App
pub mod Digest
