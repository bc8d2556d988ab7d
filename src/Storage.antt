-- ===== src/Storage.antt =====
-- Storage of the chat server: the connection pool, friend acceptance and the file transfer table.
pub mod Pool
