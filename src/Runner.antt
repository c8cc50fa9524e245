-- ===== src/Runner.antt =====
-- internal/taskmq/runner: the background loops of a worker.
pub mod Promotion
pub mod Scheduler
pub mod Daemons
pub mod Pel
pub mod Cron
pub mod Retention
