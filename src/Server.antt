-- ===== src/Server.antt =====
-- internal/server/server.go: what the server lets through and where it sends it. The reverse proxy, the
-- file server and the probes of the other services are parameters.
pub mod Paths
pub mod Origins
pub mod Files
pub mod Relay
pub mod Handler
pub mod Headers
pub mod Tunnels
pub mod Config
pub mod Startup
