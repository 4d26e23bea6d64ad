-- ===== src/Registry.antt =====
-- internal/registry: the key-space of etcd, and how the local copy of the shard map follows it.
pub mod RangeEnd
pub mod Http
pub mod Gateway
pub mod Loops
pub mod Watcher
pub mod Shared
pub mod File
pub mod Interface
pub mod Keys
pub mod Apply
pub mod Etcd
pub mod Sample
mod Tests
