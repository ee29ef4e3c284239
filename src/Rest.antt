-- ===== src/Rest.antt =====
-- The REST version of the system: rec/rest.
pub mod Model
pub mod Service
pub mod ExecutorBroker
pub mod Cache
pub mod Names
pub mod Job
pub mod Datastore
pub mod DataBroker
pub mod Retry
pub mod Client
pub mod ExecutorNode
pub mod Listeners
