-- ===== src/Dao.antt =====
-- src/dao.rs, by the tables that its functions touch.
pub mod Select
pub mod Chat
pub mod Users
pub mod Friends
pub mod Groups
pub mod GroupMessages
pub mod GroupRead
pub mod Delete
pub mod Keeps
pub mod Writes
pub mod Integrity
pub mod Graph
