-- ===== src/Wav.antt =====
-- src/control_center_v1.cpp, lines 96 to 104, 182 to 296 and 833 to 874: the microphone recordings.
pub mod Header
pub mod ReadHeader
pub mod DiskFile
pub mod Sink
pub mod Session
pub mod ClosedFile
pub mod Recording
pub mod Consistent
mod Examples
