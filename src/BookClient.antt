-- ===== src/BookClient.antt =====
-- The client of the book library of PCom3: its response buffer, the receiving of responses and the
-- requests.
pub mod Stdio
pub mod Buffer
pub mod Transport
pub mod Requests
pub mod Session
pub mod Examples
