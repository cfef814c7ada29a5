-- ===== src/Daemon.antt =====
-- hpd-daemon/src: the configuration of the daemon and its start.
pub mod Config
pub mod Boot
pub mod Suspend
pub mod Emitter
