-- ===== src/Session.antt =====
-- servers/chat/network/CSession.{h,cpp}: one client connection of the chat server. `Queue` is the
-- sending side, `Reader` the receiving side.
pub mod Queue
pub mod Reader
