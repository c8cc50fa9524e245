-- ===== src/Broker.antt =====
-- internal/taskmq/broker/broker.go: the transitions that settle a message. `Scripts` has the Lua
-- scripts, `Transitions` the methods of `redisBroker`.
pub mod Scripts
pub mod Transitions
pub mod DeadLetters
pub mod Locks
pub mod LockSpec
pub mod Settling
pub mod Outcomes
pub mod Configuration
