-- ===== src/Quota.antt =====
-- app/modules/platform/quota: the quota models and the in-memory quota store.
pub mod Models
pub mod Memory
pub mod Service
pub mod Postgres
