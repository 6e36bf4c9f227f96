-- ===== src/Hal.antt =====
-- src/hal_plugin/KinectAudioHALPlugin.cpp: the virtual audio device.
pub mod Types
pub mod Selectors
pub mod DataSize
pub mod Driver
pub mod Data
pub mod Consistent
pub mod Settings
pub mod Settable
pub mod Clients
mod Examples
