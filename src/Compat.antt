-- ===== src/Compat.antt =====
-- internal/services/compat: the dialects of other providers, their requests and their streams.
pub mod Content
pub mod Openai
pub mod Anthropic
pub mod Dialects
pub mod Routes
