-- ===== src/Tests.antt =====
-- Runs of the model at concrete inputs.
pub mod Eids
pub mod Messages
pub mod Stores
pub mod Nodes
pub mod Jobs
pub mod Services
pub mod Caches
pub mod Paths
pub mod Uploads
pub mod Files
pub mod Clients
pub mod Requests
pub mod Executors
pub mod Listeners
