-- ===== src/Lib.antt =====
-- Verification of the power daemon for handheld PCs (hpd): its core, which decides what is written
-- to the hardware and when.
--
-- The daemon keeps a `ProfileState` (power envelope, platform profile, fan curve, GPU clock, charge
-- threshold, the lock "maximum performance on AC", and a snapshot of the battery settings). Requests
-- over D-Bus, power supply events, suspend signals and failed writes all become a `Transition` in
-- one bounded channel. The executor takes them one at a time, has the pure reducer compute the new
-- state and a list of effects, publishes the state, and dispatches the effects in order to the
-- hardware backend; a write that fails reads the hardware back and sends a `Sync…` transition.
--
-- What models what (paths from the root of the repository):
--   * Prelude: the library names in use, Boolean tests, derived equality, `Result`.
--   * Float: Rust's `f32` as a concrete binary32 with rounding to nearest, ties to even. `excess`
--     counts bits on a fuel of 512: the quotients that it meets have fewer than 430 bits.
--   * Error: crates/hpd-error/src/lib.rs. An `InvariantViolation` carries a constructor with the
--     numbers of the message in place of its text.
--   * Capability: the values and validations of crates/hpd-capabilities/src (Units, Power, Charge,
--     Profile, FanCurve, GpuClock) and the traits of a backend (Backend). SanitizedConfig and
--     FanCurve.Acceptance prove.
--   * Core.State, Core.Transition, Core.Effect, Core.Invariants, Core.Inference: the files of
--     crates/hpd-core/src with these names.
--   * Core.Reducer: crates/hpd-core/src/reducer.rs. `reduce` has one clause for each arm of the
--     `match`; an arm is a function of its own (`set_profile`, `restore_dc_state`), and where the
--     lock guards it, `reduce_set_profile` is the arm behind the test at the head of `reduce`, which
--     is `gate`. A recursive call of `reduce` is a call of the guarded function of that transition.
--   * Core.Executor: crates/hpd-core/src/executor.rs. `process` is the body of the loop, `run` that
--     many rounds of it. The backend is a record of operations on a state `H` of the outside world,
--     and `StatePersister::save` a function on it.
--   * Sysfs: crates/hpd-sysfs/src/io.rs. `IsStore` is a file system that keeps what is written, without
--     the blanks at its ends; Sysfs.Real.Store gives it for `RealSysfs` on files that keep their text.
--   * Decimal: numbers as Rust's standard library prints and parses them; `digits` has a fuel of 10,
--     the digits of the largest `u32`.
--   * Text: what is used of Rust's `str`; `to_lowercase` keeps letters that are not ASCII.
--   * Sysfs.Real: crates/hpd-sysfs/src/real.rs, over the calls of `std::fs`.
--   * Asus.Power, Asus.Charge, Asus.AcConnected, Asus.PowerSupply, Asus.Hwmon, Asus.FanCurve,
--     Asus.GpuClock, Asus.Profile: the files of crates/hpd-backend-asus/src with these names (charge.rs
--     is in two modules), as functions on the state of the file system; their children ReadBack,
--     Threshold, Lookup, Attributes, Writes, Selections and Cleanup prove.
--   * Netlink: crates/hpd-netlink/src/lib.rs. `monitor` is the loop of `spawn_power_monitor` over what
--     happens to its socket; SameSource and Edges prove.
--   * Dbus.Service: the setters of crates/hpd-dbus/src/service.rs, one function for each, and `handle`
--     for all; what polkit answers is part of a `Call`. Service.Authorization proves.
--   * Dbus.PpdShim: crates/hpd-dbus/src/ppd_shim.rs. Dbus.HoldStack is the promise of its documentation
--     (`after_events`, with `demanded` for the precedence of holds) and the shim in a session with the
--     reducer (`steps`); its children prove.
--   * Daemon.Config: crates/hpd-daemon/src/config.rs, whose parser is an argument; Daemon.Boot:
--     `run_daemon` of crates/hpd-daemon/src/main.rs up to the channel and the executor;
--     Daemon.Suspend: crates/hpd-daemon/src/suspend.rs, over what happens to its sessions;
--     Daemon.Emitter: `spawn_properties_changed_emitter` of main.rs, with the properties of
--     Dbus.Service.Properties. Their children Sane, FirstState, Reasserted, Wakes and
--     UpToDate prove.
--   * Core.Persistence: crates/hpd-core/src/persistence.rs. `save` is the list of file operations that
--     are carried out, and a crash cuts the list short; Crash proves.
--   * Core.EmbeddedController: the hardware as the comments of the reducer document it.
--   * Core.RestoredState, Core.UnplugSteps, Core.DefaultsSteps: what the composite arms come to.
--     Core.EffectsReachState, Core.EnvelopeBounds, Core.EnvelopeInvariant, Core.EnvelopeWrites,
--     Core.LockedOnAc, Core.DefaultsIdempotence, Core.Durability, Core.ClockBounds, Core.Resume
--     and the children of Core.Executor prove.
--   * Tests: concrete runs, with an instance of each theorem below.
--
-- Numbers are unbounded; where the source adds in `u32` or `u8`, the model saturates, refuses or
-- wraps as the source does. Fuel of the executor's `run` counts rounds; the bound of its
-- channel is a field, which the start of the daemon fills from the configuration.
--
-- Not modelled: log lines and tracing; the layout of the state file (only which fields it holds, and
-- the operations that write it); the readings of sensors (temperatures, fans, telemetry) and the
-- methods that show them; the detection of the model; how the daemon spawns its tasks and shuts
-- down; the questions to systemd about other daemons; the command line client. Polkit, the bus, udev,
-- the toml crate and the calls of `std::fs` are arguments. The `tokio` channels, whose documented
-- behaviour (order, capacity, refusal when full) is written out in
-- Core.Executor, are lists of what was sent elsewhere. Names of files that are no text are left out.
pub mod Prelude
pub mod Float
pub mod Text
pub mod Decimal
pub mod Error
pub mod Capability
pub mod Core
pub mod Sysfs
pub mod Asus
pub mod Dbus
pub mod Netlink
pub mod Daemon
pub mod Tests
