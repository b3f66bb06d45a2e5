-- ===== src/Ps2.antt =====
-- kernel/src/ps2.rs and kernel/src/ps2/: the controller and the keyboard.
pub mod Keyboard
pub mod Controller
pub mod Init
