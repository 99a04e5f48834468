-- ===== src/Server.antt =====
-- pkg/driver/server.go and pkg/driver/identity.go.
pub mod Endpoint
pub mod Identity
