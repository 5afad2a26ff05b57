-- ===== src/Outbox.antt =====
-- internal/storage/notifications.go and internal/notify: the durable outbox of notifications.
pub mod Delivery
pub mod Limits
