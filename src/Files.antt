-- ===== src/Files.antt =====
-- File transfers: their records (common/FileTransferTypes.h) and the table file_transfer with the
-- operations of servers/chat/storage/MysqlDao.cpp.
pub mod Types
pub mod Table
pub mod Quota
pub mod Lifecycle
pub mod Advance
pub mod Store
