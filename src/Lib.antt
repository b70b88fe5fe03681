-- ===== src/Lib.antt =====
-- PAGI digital twin: the mesh of orchestrator nodes, modelled from the Rust sources under
-- backend-rust-orchestrator/src. A node keeps a quarantine list, admits peers by a signed
-- handshake, marks manifests as untrusted, votes with its peers on commits of the agent library,
-- keeps a fleet registry, monitors compliance, reports on the mesh's health, and ranks agents. It
-- gives memory fragments to verified peers, runs sub-agents under a quota, installs tools by
-- checked commands, keeps its users' preferences, prunes old vectors, stores playbooks, routes
-- queries to knowledge domains and finds paths in the knowledge graph. What the parts have to tell
-- they publish on one message bus.
--
-- Files and sources (each file names its source again in its first lines):
--   Base, Base/*       what the models share: lists, options, maps, signed numbers, f64
--   Host               files, hashing, ed25519 and printing, as parameters
--   Bus                bus/mod.rs: the events; a call returns the events that it publishes, in order
--   Quarantine         network/quarantine.rs; Quarantine/{Lookup,History,Startup,Invariant} the proofs
--   Immune             network/immune_system.rs; Immune/Trust the proofs
--   Handshake          network/handshake.rs: state, hashes, the quarantine check
--   Handshake/Handlers network/handshake.rs: initiate_handshake, complete_handshake and
--                      propagate_quarantine; Handshake/{Unlisted,Complete,Initiate,Peers,History,
--                      Provenance} the proofs
--   Consensus          network/consensus.rs: state, verdict arithmetic, the git calls
--   Consensus/Handlers network/consensus.rs: votes, sessions, timeout, override;
--                      Consensus/{Verdict,Votes,Quorum,Race,History} the proofs
--   Fleet              network/fleet.rs; Fleet/{Health,Registry} the proofs
--   Compliance         foundry/compliance_monitor.rs: records and scores, and the result type of
--                      foundry/forge_api.rs; Compliance/Monitor record_test, trigger_rollback and
--                      the statistics; Compliance/{Rollback,Record,Stats} the proofs
--   MeshHealth         analytics/mesh_health.rs; MeshHealth/Report the proofs
--   Leaderboard        analytics/leaderboard.rs; Leaderboard/{Counts,Agents,Sorting,Ranking} the
--                      proofs
--   MemoryExchange     network/memory_exchange.rs: service, decay of the counts, check of a peer
--   MemoryExchange/Stream, MemoryExchange/Snapshots
--                      network/memory_exchange.rs: redaction and transfer; pruning, snapshots and
--                      recovery; MemoryExchange/{Decay,Transfer,Recovery} the proofs
--   AgentFactory       agents/factory.rs: registry, quota, channel, resource monitor
--   AgentFactory/WorkerLoop
--                      agents/factory.rs: the worker of an agent and its call of the model;
--                      AgentFactory/{Calls,Quota,Queue,Spawn} histories and proofs
--   Installer          tools/safe_installer.rs: validation, execution, verification
--   Installer/Rollback, Installer/Sandbox
--                      tools/safe_installer.rs: repair proposals; the simulation in a sandbox;
--                      Installer/{Validation,Simulation} the proofs
--   Preferences        preferences.rs: preferences in memory and in their file
--   Preferences/Overlay
--                      preferences.rs: the prompt overlay; Preferences/{Update,Restart} the proofs
--   Values             the values of a Qdrant payload
--   Vacuum             memory/vacuum.rs and memory/optimizer.rs; Vacuum/Pruning the proofs
--   PlaybookStore      tools/playbook_store.rs: a playbook and its payload
--   PlaybookStore/Store
--                      tools/playbook_store.rs: searches, saving, statistics;
--                      PlaybookStore/{Payloads,Statistics,Duplicates} the proofs
--   DomainRouter       knowledge/domain_router.rs; DomainRouter/{Namespaces,Query} the proofs
--   Pathfinding        api/knowledge_pathfinding.rs: paths of the knowledge graph;
--                      Pathfinding/{Layers,Hops,Paths,Answers} the proofs
--   Tests              concrete runs
--
-- How the code is read. An async method that takes its locks and releases them is one step on a
-- record with the fields of the struct, and returns the record afterwards, its reply, and the
-- events it published; in Consensus a task that releases the lock of the sessions before it
-- evaluates is two steps. Elsewhere what another task does between two locks of one call is not
-- modelled. A method that has several outcomes is split into stages, one for each early return of
-- the source, in the source's order. The handshake service is given its quarantine manager and its
-- immune system as values: the Arc of the source is shared with other components, and a change that
-- another one makes is the step `manages` of Handshake/History. Histories of calls are lists of
-- steps. Logging is left out. `HashMap` is an association list; what is proved of it goes through
-- lookups, or holds for every order.
--
-- Parameters: files, SHA-256, ed25519 and printing are `Host`; `git` and libgit2 are `Git` and
-- `Repo`, given by their answers; the clock and the random generator are arguments, one reading
-- after the other in `Stamps`; Qdrant is known by its replies, the start-up load's by that to one
-- scroll with its limit; petgraph's search is a parameter of which `FindsWalks` is assumed. `f64`
-- is a parameter too, and the theorems that need arithmetic assume `IsIeee`, facts of IEEE 754 on
-- whole numbers below 2^53. Unix seconds and durations stay below 2^63, and fleet times are counts
-- of one unit. The u32 counts of the mesh report keep their wrap-around; the leaderboard's counts
-- and scores are taken within 2^53. There is no fuel: every loop of these sources walks over a
-- finite collection and is structural recursion; a scroll of Qdrant ends because its answers are a
-- finite series. The counts of playbooks keep the wrap-around of `u32`.
--
-- Not modelled: key files, the audit log, what is written to Qdrant, the network transport, the
-- listener's wait for events, setters and plain getters; and the other services of the repository,
-- which are HTTP and gRPC glue around databases and language models.
pub mod Base
pub mod Bus
pub mod Host
pub mod Preferences
pub mod Quarantine
pub mod Immune
pub mod Handshake
pub mod Consensus
pub mod Fleet
pub mod Compliance
pub mod MeshHealth
pub mod AgentFactory
pub mod Values
pub mod DomainRouter
pub mod Pathfinding
pub mod Vacuum
pub mod PlaybookStore
pub mod MemoryExchange
pub mod Installer
pub mod Leaderboard
mod Tests
