-- ===== src/V2Device.antt =====
-- The Kinect v2 device and backend of src/backends/freenect_v2_backend.cpp.
pub mod State
pub mod Pictures
pub mod Methods
pub mod NewFrames
pub mod WholeFrames
pub mod FrameSizes
pub mod Balance
pub mod Backends
pub mod Previews
mod Examples
