-- ===== src/Router/Examples.antt =====
-- The router of PCom1 on concrete tables and packets.
pub mod Data
pub mod Tables
pub mod Headers
pub mod Handling
pub mod Runs
pub mod Sockets
