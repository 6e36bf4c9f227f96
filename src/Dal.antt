-- ===== src/Dal.antt =====
-- src/dal_plugin/KinectCameraDALPlugin.cpp: the virtual camera.
pub mod Types
pub mod Selectors
pub mod DataSize
pub mod Data
pub mod Consistent
pub mod Queue
pub mod Store
pub mod Objects
pub mod Producer
pub mod Events
pub mod Invariant
pub mod Preserved
pub mod Promises
pub mod Ownership
pub mod Pixels
pub mod Race
mod Examples
