-- ===== src/Ipv4.antt =====
-- source/kernel/ipv4.c.
pub mod Decode
pub mod Request
pub mod Verify
pub mod Segment
pub mod RoundTrip
pub mod Datagram
pub mod Stream
