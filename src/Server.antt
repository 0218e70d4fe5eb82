-- ===== src/Server.antt =====
-- src/server: the broker. Its state and the shared operations stand in State and Requests, the gRPC
-- handlers in Grpc, a chat backend's connection in Ingest, the tasks together in System and Locks.
pub mod State
pub mod Requests
pub mod Ingest
pub mod Grpc
pub mod System
pub mod Locks
