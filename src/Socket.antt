-- ===== src/Socket.antt =====
-- source/kernel/socket.c: the sockets, and the calls of a task. A call that waits is a function that
-- is tried again: `waits` says that the task sleeps and tries later. `fault` stands for an access
-- through a NULL pointer. The log and the pages that hold the structures are left out; a page that
-- a call fills is a parameter with what it held before.
pub mod State
pub mod Calls
pub mod Done
unfoldable pub use State.*
