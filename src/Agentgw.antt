-- ===== src/Agentgw.antt =====
-- The gateway of the agents (internal/logic/agentgw): how commands are handed to agents, how what the
-- agents report is stored, and how lost commands are given up.
pub mod Sanitize
pub mod Rows
pub mod Dequeue
pub mod Ack
pub mod Stage
pub mod Report
pub mod Reap
pub mod Sync
pub mod Keeps
pub mod Lifecycle
pub mod System
pub mod Late
pub mod Delivery
pub mod Maintenance
mod Tests
