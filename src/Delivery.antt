-- ===== src/Delivery.antt =====
-- Delivery of social messages: groupmate/social_runtime/delivery and the contracts it exchanges.
pub mod Contracts
pub mod Database
pub mod Outbox
pub mod Dispatcher
mod Samples
mod Examples
