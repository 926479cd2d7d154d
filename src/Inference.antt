-- ===== src/Inference.antt =====
-- internal/services/inference: chat and Converse requests, and reading the model provider's stream.
pub mod Bytes
pub mod Crc32
pub mod EventStream
pub mod Tokens
pub mod Payload
pub mod Relay
pub mod Request
pub mod Dispatch
pub mod Chat
pub mod Converse
