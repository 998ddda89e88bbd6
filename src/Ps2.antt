-- ===== src/Ps2.antt =====
-- The PS/2 drivers: src/drivers/ps2.
pub mod Keys
pub mod Queue
pub mod Keyboard
pub mod Devices
pub mod Controller
pub mod Startup
