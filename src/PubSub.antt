-- ===== src/PubSub.antt =====
-- PCom2: the server and the subscriber of a publish and subscribe system.
pub mod Protocol
pub mod Client
pub mod Server
pub mod Subscriber
pub mod Examples
