-- ===== src/Kernel.antt =====
-- source/kernel/kernel.c: the start of the kernel, and its client of a web server.
pub mod Start
pub mod Started
pub mod Rounds
pub mod Web
pub mod Request
pub mod Page
pub mod Visit
