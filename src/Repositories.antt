-- ===== src/Repositories.antt =====
-- app/repositories: the queries of the services, a module for each class.
pub mod Users
pub mod Conversations
pub mod Messages
pub mod Tentative
