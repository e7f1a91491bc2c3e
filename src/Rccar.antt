-- ===== src/Rccar.antt =====
-- src/service/robot_rccar: the services of the RC car.
pub mod Coordinator
pub mod Messenger
pub mod System
