-- ===== src/Api.antt =====
-- The read-only API, of internal/api.
pub mod Rows
pub mod Order
pub mod Messages
pub mod Trace
pub mod Params
pub mod Handlers
pub mod Historical
pub mod Stats
pub mod Routes
pub mod Cache
pub mod StatsHandlers
pub mod Health
