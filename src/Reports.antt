-- ===== src/Reports.antt =====
-- The reports of the components on the screen and on the serial line, and the features of the
-- processor that source/kernel/mtrr.c reports.
pub mod Lists
pub mod Memory
pub mod Tasks
pub mod Processor
pub mod Shown
