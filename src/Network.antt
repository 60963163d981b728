-- ===== src/Network.antt =====
-- source/kernel/networking.c: incoming messages are sorted to the sockets, outgoing messages are
-- sent by a task that polls the sockets.
pub mod Receive
pub mod Transmit
pub mod Invariant
pub mod Session
pub mod Handshake
pub mod Safety
pub mod Life
