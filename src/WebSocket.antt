-- ===== src/WebSocket.antt =====
-- app/websocket.
pub mod Manager
pub mod Protocol
pub mod PubSub
pub mod Endpoint
pub mod FanOut
pub mod Backend
pub mod Chat
