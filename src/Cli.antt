-- ===== src/Cli.antt =====
-- src/main.cpp: the command line.
pub mod Numbers
pub mod Options
pub mod Run
pub mod Seconds
pub mod Modes
pub mod Outcomes
mod Examples
