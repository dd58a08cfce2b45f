-- ===== src/GitDeploy.antt =====
-- internal/gitdeploy: bounded clone, fetch and reset of one site's repository.
pub mod PathValidate
pub mod Ssh
pub mod Rows
pub mod Git
pub mod Executor
pub mod Protocol
mod Tests
