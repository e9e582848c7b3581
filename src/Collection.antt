-- ===== src/Collection.antt =====
-- common/util/collection: the rolling window of counters and the ring buffer of log entries.
pub mod RollingWindow
pub mod Ring
pub mod FixedRing
