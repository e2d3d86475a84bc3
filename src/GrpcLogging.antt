-- ===== src/GrpcLogging.antt =====
-- extensions/grpc_logging: log entries are collected into requests, which are sent to a service.
pub mod Buffer
pub mod Entry
pub mod Delivery
pub mod Shutdown
mod Tests
