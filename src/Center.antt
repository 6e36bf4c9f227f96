-- ===== src/Center.antt =====
-- src/control_center_v1.cpp without its WAV recording: keys, settings, threads, frames and captures.
pub mod Formats
pub mod FalseColor
pub mod Buffers
pub mod LatestFrame
pub mod Freed
pub mod Settings
pub mod Keys
pub mod Thread
pub mod Steps
pub mod StepRule
pub mod Ranges
pub mod Closing
pub mod FormatChange
pub mod Layout
pub mod Main
pub mod Captures
mod Examples
