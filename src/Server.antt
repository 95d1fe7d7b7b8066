-- ===== src/Server.antt =====
-- src/server: the handler of requests, and the session that serves one client over a blocking socket.
pub mod Handler
pub mod Session
