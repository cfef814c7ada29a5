-- ===== src/Asus.antt =====
-- hpd-backend-asus: the backend for ASUS handhelds, over sysfs.
pub mod Power
pub mod Charge
pub mod Hwmon
pub mod FanCurve
pub mod GpuClock
pub mod PowerSupply
pub mod AcConnected
pub mod Profile
