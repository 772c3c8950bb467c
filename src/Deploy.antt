-- ===== src/Deploy.antt =====
-- internal/deploy: the path checks, the file operations, the strategies and the run of a deploy.
pub mod Safety
pub mod Command
pub mod Errors
pub mod Files
pub mod Services
pub mod Strategies
pub mod Run
pub mod Contained
