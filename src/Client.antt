-- ===== src/Client.antt =====
-- internal/client: connections, sessions and files over the message format.
pub mod Conn
pub mod Transaction
pub mod Calls
pub mod File
