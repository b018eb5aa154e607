-- ===== src/Lib.antt =====
-- PaciNet: the controller that sends packet-filter policies to FPGA nodes, as a library of definitions
-- translated from the Rust sources and of theorems about them.
--
-- The controller keeps nodes, policies, deployments and the state machines of staged rollouts in a storage
-- behind one trait. A deployment takes a node's deploy guard, stores the policy, asks the node's agent and
-- moves the node between its states. The engine evaluates the conditions of running state machines against
-- the last counter snapshots and runs their actions, deployments and rollbacks. Agents and operators reach
-- all this through gRPC services; background tasks evaluate the machines, store events and mark nodes that
-- are not heard from, on the one controller that a shared lease makes the leader.
--
-- Files and sources:
--   Prelude, Text, HashMap   what the parts share: tests, lists, results, texts, maps and sets
--   Model                    pacinet-core/src/model.rs: the records; Model/State the states of a node
--                            (with the enum of proto/pacinet.proto), Model/Deployment the results
--   Error                    pacinet-core/src/error.rs and pacinet-core/src/fsm/error.rs
--   Fsm                      pacinet-core/src/fsm: Duration (parse_duration), Definition (the types), Validate
--                            (FsmDefinition::validate), Status and Instance (FsmInstance, FsmContext)
--   Storage                  pacinet-server/src/storage/memory.rs, every method of MemoryStorage: Nodes, Policies,
--                            Deploys, Machines, Logs; Storage/Run any sequence of writing calls, with the
--                            invariant; Storage/Interface the part of the trait of
--                            pacinet-core/src/storage.rs that deployments and the engine call
--   Deploy                   pacinet-server/src/deploy.rs: Options, Node (deploy_to_node), Fleet (deploy_to_nodes)
--   Counters                 pacinet-server/src/counter_cache.rs (Cache; its `record` is push_snapshot) and
--                            pacinet-server/src/counter_rate.rs (Rate)
--   Engine                   pacinet-server/src/fsm_engine.rs: Conditions, Actions, Transitions
--   Events                   pacinet-server/src/events.rs: Machine (FsmEvent), Fleet (NodeEvent, CounterEvent); Watch
--                            the streams of pacinet-server/src/service.rs
--   Sqlite                   pacinet-server/src/storage/sqlite.rs and schema.sql beside it: the tables of nodes, policies,
--                            counters and guards, in Fleet, Machines and Logs the rest, in Rows the conversions of
--                            rows; Calls and Runs sequences of calls on both storages, Versions the
--                            order of the versions, Sweep the loop over stale nodes, Refines, Policies and
--                            Simulation the relation of the two
--   Leader                   pacinet-server/src/leader.rs and the lease of pacinet-server/src/storage/sqlite.rs:
--                            Attempts sequences of attempts, Cluster a step relation on controllers
--   Service                  pacinet-server/src/service.rs: Agents (ControllerService), Nodes, Deploys, Rollback,
--                            Machines, Logs (ManagementService)
--   Server                   pacinet-server/src/config.rs and pacinet-server/src/main.rs: the arguments, the start of
--                            the election, and in Background the tasks; require_leader of
--                            pacinet-server/src/rest.rs
--   Webhook                  pacinet-server/src/webhook.rs
--   Agent                    pacinet-agent/src/service.rs, with the heartbeats of pacinet-agent/src/main.rs and the
--                            backends of pacinet-agent/src/pacgate.rs; Beats what the controller makes of them
--   Tests                    the theorems at concrete inputs
--
-- State is passed along: a method of `&self` that writes takes the state and answers with a new one. A
-- method of the memory storage is one step here: nearly all hold their locks to their end, and of those
-- that take several locks in turn, as remove_node does, nothing is said when another call comes in
-- between. Times and durations are numbers of nanoseconds; a clock reading, a fresh identifier,
-- the hash of a policy, the agent's reply, the text of a storage error and the arithmetic of f64 are arguments.
-- Counters of u32 and u64 wrap round as in a release build. A map is a list of entries, and no
-- theorem depends on the order in which a map is walked. The table of definitions keeps their JSON, which
-- a parameter writes and reads. Every recursion is structural, so no fuel
-- is used but for printing a number, which has a digit of fuel for each of its units.
--
-- A handler of a service is a function of the request and of the memory storage, which answers with the
-- reply, the events that it emits and the new state; two handlers do not interleave. The delivery of a
-- webhook recurses on the number of attempts that are left, max_retries + 1 at the start.
--
-- Not modelled: logging and metrics; alerts inside the engine, which change no state of these parts; the parsing
-- of YAML and the serde defaults, which are library code; of the SQLite storage the faults
-- of a disk, but for those of the lease, and rows that something else has written; the REST
-- handlers but for their leader guard; sockets and TLS files; the agent's start and its
-- runs of the compiler, the command line, the simulator
-- and the web interface. Of a conversion to tonic::Status the text is an argument.
pub mod Prelude
pub mod Text
pub mod HashMap
pub mod Model
pub mod Error
pub mod Fsm
pub mod Storage
pub mod Deploy
pub mod Counters
pub mod Engine
pub mod Events
pub mod Sqlite
pub mod Leader
pub mod Service
pub mod Server
pub mod Agent
pub mod Webhook
pub mod Tests
