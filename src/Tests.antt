-- ===== src/Tests.antt =====
-- Runs of the model on concrete data, and the theorems at concrete inputs.
mod Data
mod Plans
mod Records
mod Requests
mod Webhooks
mod Events
mod Frames
mod Streams
mod Limits
mod Queues
mod Chats
mod Translations
