-- ===== src/Messages.antt =====
-- Text messages: the domain service (common/), the message table (MysqlDao) and their delivery
-- (LogicSystem).
pub mod Types
pub mod Window
pub mod Service
pub mod Table
pub mod Delivery
pub mod Chat
