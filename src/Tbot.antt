-- ===== src/Tbot.antt =====
-- The firmware of the tracked robot: src/service/robot_tbot.
pub mod Codec
pub mod Coordinator
pub mod Motion
pub mod Speed
pub mod Messenger
pub mod System
