-- ===== src/Rest/Datastore.antt =====
-- rec/rest/nodes/datastore.py.
pub mod File
pub mod Endpoints
