-- ===== src/Breaker.antt =====
-- common/util/breaker: client-side throttling by the recent failures.
pub mod Google
pub mod ErrorWindow
