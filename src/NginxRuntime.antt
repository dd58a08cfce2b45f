-- ===== src/NginxRuntime.antt =====
-- internal/nginxruntime: bounded nginx site configuration, materialization and reload.
pub mod WebRoot
pub mod TlsIntent
pub mod Render
pub mod CertPaths
pub mod SiteFiles
pub mod Rows
pub mod Converge
pub mod Protocol
mod Tests
