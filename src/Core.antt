-- ===== src/Core.antt =====
-- hpd-core: the state of the daemon, its transitions, the pure reducer and the executor.
pub mod State
pub mod Transition
pub mod Effect
pub mod Invariants
pub mod Inference
pub mod Reducer
pub mod Executor
pub mod Persistence
pub mod EmbeddedController
pub mod EnvelopeBounds
pub mod RestoredState
pub mod ClockBounds
pub mod Durability
pub mod Resume
pub mod DefaultsIdempotence
pub mod LockedOnAc
pub mod UnplugSteps
pub mod EnvelopeInvariant
pub mod EnvelopeWrites
pub mod DefaultsSteps
pub mod EffectsReachState
