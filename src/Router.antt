-- ===== src/Router.antt =====
-- The router of PCom1: its tables, its packet queue and its packet handler.
pub mod GrowArray
pub mod ArpTable
pub mod Queue
pub mod Masks
pub mod RouteTable
pub mod Checksum
pub mod Hwaddr
pub mod Frames
pub mod Sockets
pub mod Handler
pub mod Examples
