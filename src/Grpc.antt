-- ===== src/Grpc.antt =====
-- internal/handler/grpc: the gRPC interface of the service.
pub mod Messages
pub mod Handlers
pub mod Registration
pub mod Watch
pub mod Watching
pub mod Numbers
