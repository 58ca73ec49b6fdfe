-- ===== src/Boot.antt =====
-- kernel.c and x86_desc.h: from the boot loader to the first shell.
pub mod Segments
pub mod Multiboot
pub mod Report
pub mod Loops
pub mod Reports
pub mod Entering
pub mod Devices
pub mod Starts
pub mod Enters
pub mod Running
