-- ===== src/Gui.antt =====
-- The preview window of src/gui/app.cpp.
pub mod App
pub mod Shown
pub mod Idles
mod Examples
