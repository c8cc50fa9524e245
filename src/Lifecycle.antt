-- ===== src/Lifecycle.antt =====
-- internal/taskmq/lifecycle: admission control. `Config` has the limits, `Metrics` the counters,
-- `Scripts` the Lua scripts that enforce the limits, and `Admission` the Go functions around them.
pub mod Config
pub mod Metrics
pub mod Scripts
pub mod Admission
pub mod Replies
pub mod Capacity
pub mod Streams
pub mod Promotion
