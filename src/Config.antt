-- ===== src/Config.antt =====
-- internal/config: what the agent accepts in its configuration file.
pub mod Probes
pub mod Origin
pub mod Settings
pub mod Load
mod Tests
