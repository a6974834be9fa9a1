-- ===== src/KvStore.antt =====
-- The hash map of src/cpp/cache/kv_store: keys, nodes and their chains, metrics, the unguarded store
-- and the guarded map.
pub mod Key
pub mod Chain
pub mod Metrics
pub mod Store
