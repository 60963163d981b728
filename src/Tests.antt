-- ===== src/Tests.antt =====
-- The theorems at concrete inputs, for the code of source/kernel.
mod Tasks
mod Memory
mod Packets
mod Connection
mod Processes
mod Devices
mod Leases
mod Boot
mod Heap
mod Drivers
mod Output
mod Kernel
mod Clients
