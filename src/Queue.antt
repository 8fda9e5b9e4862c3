-- ===== src/Queue.antt =====
-- app/modules/messaging/queue: the message, the in-memory gateway, the dispatcher by type and the
-- polling worker.
pub mod Gateway
pub mod Worker
pub mod Dispatcher
