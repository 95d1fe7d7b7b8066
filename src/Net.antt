-- ===== src/Net.antt =====
-- src/net: what the servers do with their sockets.
pub mod Socket
pub mod Connection
pub mod EpollServer
