-- ===== src/Api.antt =====
-- The services of the desktop application (api/).
pub mod Errors
pub mod Config
pub mod Persist
pub mod FileProvider
pub mod Tunnels
pub mod Proxy
pub mod Listener
pub mod Events
pub mod Accept
pub mod Connect
pub mod CertInfo
pub mod Service
pub mod Routes
