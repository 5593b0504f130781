-- ===== src/Panel.antt =====
-- The panel in the browser: its live state, and its pages.
pub mod Status
pub mod Tunnels
pub mod Config
pub mod Firewall
