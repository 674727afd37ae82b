-- ===== src/Tunnel.antt =====
-- The tunnels (tunnel/).
pub mod Urls
pub mod Config
pub mod Errors
pub mod Run
pub mod Fallback
pub mod Http
pub mod Udp
pub mod Listening
pub mod Pick
