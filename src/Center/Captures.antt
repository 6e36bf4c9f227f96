-- ===== src/Center/Captures.antt =====
-- The captures of src/control_center_v1.cpp: a PPM, a PGM and a PLY file of the frames shown.
pub mod Save
pub mod Netpbm
pub mod Points
