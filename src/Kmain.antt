-- ===== src/Kmain.antt =====
-- kernel/kmain.cpp: the console and the routines that the compiler calls.
pub mod Memset
pub mod Fill
pub mod Keymap
pub mod Console
pub mod Commands
pub mod Typing
pub mod Line
mod Tests
