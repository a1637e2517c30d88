-- ===== src/Client.antt =====
-- client.go: the agent side of the AgentService stream, one module for each of its concerns.
pub mod Messages
pub mod State
pub mod Pending
pub mod Heartbeat
pub mod Delivery
pub mod Dispatch
pub mod Tasks
mod Retry
pub mod SendLock
pub mod Requests
pub mod Run
mod Tests
