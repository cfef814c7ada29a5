-- ===== src/Dbus.antt =====
-- hpd-dbus: what the daemon serves on the bus.
pub mod Errors
pub mod Service
pub mod PpdShim
pub mod HoldStack
