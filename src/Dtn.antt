-- ===== src/Dtn.antt =====
-- The DTN version of the system: rec/dtn.
pub mod Eid
pub mod Message
pub mod Storage
pub mod Job
pub mod Node
pub mod Broker
pub mod Datastore
pub mod Executor
pub mod Client
