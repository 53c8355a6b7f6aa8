-- ===== src/Smash.antt =====
-- The shell of OS_HW1_234123.
pub mod Types
pub mod Line
pub mod Jobs
pub mod Commands
pub mod Shell
mod Examples
