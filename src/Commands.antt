-- ===== src/Commands.antt =====
-- The commands (cmd/pomerium-cli/), with internal/cache and version/.
pub mod Paths
pub mod Tls
pub mod Credentials
pub mod Kubernetes
pub mod Proxy
pub mod Version
pub mod Tunnels
