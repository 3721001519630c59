-- ===== src/Model.antt =====
-- src/server/model: the classes that hold a row, and those that reach the database.
pub mod User
pub mod Connection
pub mod UserModel
pub mod FriendModel
pub mod GroupModel
pub mod OfflineMessage
pub mod Retries
pub mod Kept
pub mod Groups
pub mod Leaks
pub mod Lending
pub mod Friendship
