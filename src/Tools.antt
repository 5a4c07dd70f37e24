-- ===== src/Tools.antt =====
-- internal/tools: the handlers of the tools.
pub mod Effect
pub mod ConfigFile
pub mod Lifecycle
pub mod Config
pub mod Meta
pub mod Queries
pub mod Health
pub mod Stream
pub mod Logs
pub mod Files
pub mod SecretFile
pub mod Etcd
pub mod Samples
mod Tests
