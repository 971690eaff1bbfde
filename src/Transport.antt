-- ===== src/Transport.antt =====
-- src/transport.rs: the addresses of a peer, the routing of received datagrams, and the forwarding
-- between the loopback socket and the Internet.
pub mod Candidates
pub mod Routing
pub mod Forwarding
