-- ===== src/Lib.antt =====
-- pgoverlay: a daemon that gives out copy-on-write branches of a Postgres database. Its registry is a
-- SQLite file with the rows of sources, branches and frozen layers and an audit trail; the engine
-- drives containers and volumes and records each step there. The proofs here are about the registry,
-- which decides what may happen to a branch and which volumes may be removed.
--
-- Registry models internal/registry. Registry/Types holds the rows and the two state machines of
-- registry.go, Registry/Sql the statements with the keys, the foreign keys and the trigger of
-- schema.go, and Registry/Actor the actors of actor.go. The tables are one record (Db) of lists with
-- the newest row first. A transaction is a function from the tables to a value and new tables, or an
-- error; `committed` keeps the old tables on an error, which is the rollback. What a call reads from
-- outside, the actor on its context, the clock and the id that newID draws, is a record (Call).
-- Registry/Branches has CreateBranchCtx, transitionBranch and MarkBranchReadyCtx, Registry/Updates the
-- other updates of a branch row, Registry/Sources the operations on sources, Registry/Layers the
-- layers, LayerChain and CommitFreezeCtx, Registry/Queries the lists, the counts, VolumeNameUsed,
-- LiveVolumeSet and BranchHistory. Registry/Run puts the writing calls in one type and runs sequences
-- of them. SQLite runs one writing transaction at a time, so an interleaving of callers is a sequence
-- of calls.
-- The proofs stand in Registry/Trail (the state that the audit trail records), Registry/Sound (the
-- invariant of the tables and each operation), Registry/Growth, Registry/Lifecycle, Registry/Outcome
-- (the ends of a transition), Registry/Forest (the layers as a forest, the freeze), Registry/Volumes and
-- Registry/Referring (the layers of a branch and their counts). Registry/Tests runs them on small tables.
--
-- LayerChain follows parent links in a loop without a bound. The model walks with one round more than
-- there are layers and tells three ends apart: the chain, a missing layer, and no rounds left.
--
-- Names models pgoverlayconnect/names.go, the branch names that the GitHub App derives from a
-- repository and a git ref, on lists of bytes. The hex text of a SHA-256 sum and the lower-casing of
-- Unicode text are parameters.
--
-- Cow models internal/cow/plan.go: the backends, the names of volumes and datasets, the argument vectors
-- of zfs, and the plan of a branch with its overlay stack.
--
-- Engine models internal/engine over the registry. Engine/World has the engine as a record: the container
-- runtime is an interface in the source (runtime.Driver), so its operations are fields, functions on an
-- abstract state of the runtime that may refuse; the settings, the clock, new ids, random text, the texts
-- of errors, and seeding and the checks of connection settings (internal/pgctl) are fields as well.
-- Engine/Actions has the steps: an action reads and writes a world (the registry's tables, the runtime
-- and the number of registry calls made) and gives a value or fails. `call` is a registry transaction,
-- `drive` a driver call, `best_effort` a step whose failure is only logged (logCompensationErr), and
-- `undoing` a compensation: nested, these are the undo stack that a saga runs backwards.
--   Engine/Names       validateName, on bytes
--   Engine/Layers      freshBranchLayer and zfs.go's layer primitives
--   Engine/Instances   the specs of containers and helpers
--   Engine/Readiness   waitReady, applyMasking, rotateBranchCredentials, inspectAddr, awaitAndMark
--   Engine/Provision   provision on the three backends (saga.go, csi.go), restarts on own data (recover.go)
--   Engine/Create      the admission checks, CreateBranch, ResetBranch
--   Engine/Destroy     DestroyBranch, teardown, collection, ReapExpired
--   Engine/Recover     RecoverBranch
--   Engine/Freeze      CreateBranchFrom and the freeze of freeze.go
--   Engine/Sources     AddSource, RefreshSource, RemoveSource
--   Engine/Drift       PlanReconcile; Engine/Reconcile applyAction and a whole pass (reconcile.go)
-- A request runs without interference: what runs beside it shows only in the runtime and in the tables
-- that the next request starts from. The waits count the probes that fit before their deadline, and a
-- driver's operation gets the context of its call, the request's or a detached one. freshBranchLayer tries
-- the 10,000 generations of the source. Engine/Flow and Engine/Grants have the rules by which
-- a predicate is carried through an action, Engine/Tidy the stock of a host and the contract of an
-- orderly driver, whose removals may be refused, Engine/Checks and Engine/Admission the checks before an
-- operation's first change, and Engine/Freezing what branches hold of the volumes while one of them is frozen.
--
-- Proxy models parts of internal/pgproxy: Proxy/Cancel the cancel map of cancel.go and the frame that
-- forwardCancel writes, Proxy/Startup the startup packet and the routed name of startup.go. The mutex of
-- the map makes an interleaving of sessions a sequence of events, which Proxy/Sessions runs beside the
-- list of live sessions; Proxy/Follows compares the two. A connection is the list of the bytes
-- that will come.
--
-- Secrets models internal/registry/crypto.go, the passwords at rest: Secrets/Box the keys of a box,
-- encrypt, decrypt and isCurrent on bytes. AES-GCM, base64 and the digest that names a key are a record
-- of functions (Cipher), and Secrets/Opening lists what the code relies on: base64 decodes what it
-- encodes, the cipher opens what it sealed, an id is hex text. The registry's own operations see the
-- encryption as a function.
--
-- Tokens models internal/registry/tokens.go: the table of API tokens with its unique name and hash,
-- creation, lookup and revocation, and sequences of calls (Tokens/Runs). Roles and the shape of a name
-- are checked as there; the hash text is a parameter.
--
-- Parameters of the registry: the parsing and printing of times, the regular expression of an image
-- reference, and the encryption of passwords at rest.
-- Not modelled: ORDER BY created_at (lists come in the order of the tables), opening and migrating the
-- file, ReencryptSecrets, the list of tokens, and the parts of the program that talk to Docker,
-- Kubernetes, Postgres and the network. Of the engine: the heartbeats (keepAlive, trackSeeding), metrics and
-- log lines, the cache of observeCowMode, BranchUsage, diff.go, the text of the shell commands around zfs,
-- the process's own claims (reconcileState, an input here), RefreshBranchEndpoint, and the ticker.
pub mod Base
pub mod Registry
pub mod Cow
pub mod Engine
pub mod Names
pub mod Proxy
pub mod Secrets
pub mod Tokens
