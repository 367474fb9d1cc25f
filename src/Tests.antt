-- ===== src/Tests.antt =====
-- A platform and a server that keep their promises, sample rows, and the theorems at them.
mod Platform
mod Server
mod Data
mod Accounts
mod Conversations
mod Wire
mod FanOut
mod Requests
mod Sockets
mod Backend
mod Operations
mod Settings
