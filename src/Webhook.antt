-- ===== src/Webhook.antt =====
-- internal/services/webhook/dodo.go: what the handler of the payment provider's events decides.
pub mod Text
pub mod Json
pub mod Provider
pub mod Object
pub mod Act
pub mod Resolve
pub mod Persist
pub mod Invoicing
pub mod Handlers
pub mod Delivery
pub mod Subscription
pub mod Mandates
pub mod Refund
pub mod Grants
