-- ===== src/Storage.antt =====
-- `MemoryStorage` of pacinet-server/src/storage/memory.rs. A method is one step on the state: what
-- another thread sees between two of the locks that `remove_node` takes one after another, and a
-- poisoned lock, are left out.
pub mod State
pub mod Nodes
pub mod Policies
pub mod Deploys
pub mod Machines
pub mod Logs
pub mod Run
pub mod Interface
