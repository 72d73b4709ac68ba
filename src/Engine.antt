-- ===== src/Engine.antt =====
-- internal/engine.
pub mod Addr
pub mod ConnTrack
pub mod FlowPolicy
pub mod Batch
pub mod Intercept
pub mod Relay
pub mod Sni
pub mod Capture
pub mod Lifecycle
pub mod Connect
pub mod Control
pub mod Stats
pub mod Statuses
pub mod Tunnel
pub mod Upstream
pub mod Whitelist
