-- ===== src/V1Device.antt =====
-- src/backends/freenect_v1_backend.cpp, lines 27 to 489: one Kinect v1 device.
pub mod Calls
pub mod State
pub mod Streaming
pub mod Controls
pub mod Frames
pub mod Methods
pub mod StartRule
pub mod Invariant
pub mod Reachable
pub mod Lifecycle
pub mod Commands
pub mod Shapes
pub mod Preview
mod Examples
