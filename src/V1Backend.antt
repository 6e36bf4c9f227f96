-- ===== src/V1Backend.antt =====
-- src/backends/freenect_v1_backend.cpp without its device: the search for the firmware, and how
-- `FreenectV1Backend` counts, lists and opens devices.
pub mod Firmware
pub mod Context
pub mod Serials
pub mod Opening
pub mod Found
pub mod Requests
pub mod Opened
pub mod Previews
mod Examples
