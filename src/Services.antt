-- ===== src/Services.antt =====
-- app/services, but for the WebSocket service.
pub mod Auth
pub mod Conversation
pub mod Message
pub mod Atomic
