-- ===== src/FrameSource.antt =====
-- `KinectFrameSource` of src/dal_plugin/KinectCameraDALPlugin.cpp: the camera's pictures from the
-- backends.
pub mod Api
pub mod Source
pub mod Pictures
pub mod Devices
pub mod Drawn
pub mod Examples
