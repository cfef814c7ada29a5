-- ===== src/Capability.antt =====
-- hpd-capabilities: the value types and the checks that the traits of the hardware exchange.
pub mod Units
pub mod Charge
pub mod Power
pub mod Profile
pub mod SanitizedConfig
pub mod FanCurve
pub mod GpuClock
pub mod Backend
