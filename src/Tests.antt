-- ===== src/Tests.antt =====
-- Concrete inputs for the theorems of the other modules.
pub mod Data
mod Stores
mod Machines
mod Deployments
mod Caches
mod Services
mod Processes
mod Databases
mod Agents
