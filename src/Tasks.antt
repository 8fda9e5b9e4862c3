-- ===== src/Tasks.antt =====
-- app/modules/messaging/tasks: the task records, the in-memory task store, the message contract and
-- the service over a store and a queue.
pub mod Models
pub mod Memory
pub mod Relay
pub mod Message
pub mod Handler
pub mod Service
pub mod Redis
