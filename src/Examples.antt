-- ===== src/Examples.antt =====
-- The theorems at concrete inputs.
pub mod Data
pub mod Sbus
pub mod Robot
pub mod Uplink
pub mod Car
pub mod Devices
pub mod Uart
pub mod System
pub mod Start
pub mod Hardware
