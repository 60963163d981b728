-- ===== src/Output.antt =====
-- source/kernel/print.c, serial.c and keyboard.c: what is written on the screen and on the serial
-- line.
pub mod Screen
pub mod Serial
pub mod Hex
pub mod Shown
pub mod Clear
pub mod Sent
pub mod Devices
