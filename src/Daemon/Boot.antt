-- ===== src/Daemon/Boot.antt =====
-- `run_daemon` of hpd-daemon/src/main.rs, up to the channel and the executor: the state that the
-- daemon starts with. `loaded` is what `StatePersister::load` gives, and `mpsc::channel` is taken as
-- tokio documents it: it panics where the capacity is 0.
pub mod FirstState
pub mod Reasserted
use hpd_handheld_power_daemo.Prelude.{
  refl, sym, ap, ◌∙◌, true, false, not, ◌&&◌, ◌||◌, ltb, leb, Bool, Bool-cases, inl, inr, ℕ, zero,
  suc, ◌+◌, ◌-◌, ◌*◌, ◌/◌, ◌%◌, ◌^◌, ◌≤◌, ◌<◌, ◌≡◌, ◌⊎◌, ◌↔◌, Option, none, some, ok, err, Result,
  ◌>>=◌, ◌>>◌, arith, String, Equality, ◌==◌, ◌!=◌, nat_eq, string_eq, if◌then◌else◌, All, any, all,
  length, is_empty, List, [], ◌∷◌, ◌++◌,
}
use hpd_handheld_power_daemo.Error.{HpdError, Fallible}
use hpd_handheld_power_daemo.Capability.Charge.{min_charge_threshold, max_charge_threshold}
use hpd_handheld_power_daemo.Capability.Power.{PowerEnvelopeLimits, PowerEnvelopeTarget}
use hpd_handheld_power_daemo.Capability.FanCurve.{FanCurvePreset, FanCurveSelection}
use hpd_handheld_power_daemo.Capability.Profile.{ProfileName}
use hpd_handheld_power_daemo.Capability.Backend.{HwBackend, ChargeControl, PlatformProfile}
use hpd_handheld_power_daemo.Core.State.{ProfileState}
use hpd_handheld_power_daemo.Core.Transition.{Transition}
use hpd_handheld_power_daemo.Core.Executor.{Executor}
use hpd_handheld_power_daemo.Daemon.Config.{DaemonConfig}

abbrev pub value_or : {A : Type 0} → Option A → A → A
value_or (some a) d = a
value_or none d = d

-- `.ok()`
abbrev pub to_option : {A : Type 0} → Fallible A → Option A
to_option (ok a) = some a
to_option (err e) = none

-- A read from a capability that may be missing.
abbrev pub read {ℓ} : {C : Type ℓ} {A : Type 0} → Option C → (C → Fallible A) → Option A
read none get = none
read (some c) get = to_option (get c)

-- `(MIN_CHARGE_THRESHOLD..=MAX_CHARGE_THRESHOLD).contains(t)`
abbrev pub is_threshold : ℕ → Bool
is_threshold t = leb min_charge_threshold t && leb t max_charge_threshold

-- `.filter`
abbrev pub filter : {A : Type 0} → (A → Bool) → Option A → Option A
filter p none = none
filter p (some a) = if p a then some a else none

-- `or_else` with the preset of the configuration
abbrev pub curve_or_default :
    Option FanCurveSelection → Option FanCurvePreset → Option FanCurveSelection
curve_or_default (some f) d = some f
curve_or_default none none = none
curve_or_default none (some preset) = some (FanCurveSelection.preset preset)

-- How far `run_daemon` comes.
pub data Start {ℓ} (H : Type ℓ) : Type ℓ where
  refused : HpdError → Start H
  panicked : Start H
  started : Executor H → Start H

module _ {ℓ} {H : Type ℓ} (backend : HwBackend H) (h : H) where
  unfoldable pub is_physically_plugged : Bool
  is_physically_plugged = value_or (read backend.charge (λ c. c.is_ac_connected h)) false

  -- `current_target`
  unfoldable pub first_target : PowerEnvelopeLimits → PowerEnvelopeTarget
  first_target limits =
      value_or (to_option (backend.power.get_target h))
        (record { spl = limits.spl_min; sppt = limits.spl_min; fppt = some limits.spl_min })

  -- `current_charge_limit`
  unfoldable pub first_threshold : DaemonConfig → ℕ
  first_threshold cfg =
      value_or (filter is_threshold (read backend.charge (λ c. c.get_end_threshold h)))
        cfg.default_charge_threshold

  -- The state of a first start.
  unfoldable pub first_state : PowerEnvelopeLimits → DaemonConfig → ProfileState
  first_state limits cfg = record {
    power_target = first_target limits;
    active_profile =
        value_or (read backend.profile (λ c. c.get_active_profile h)) ProfileName.balanced;
    charge_end_threshold = first_threshold cfg;
    fan_follows_tdp = true;
    last_dc_state = none;
    ac_max_performance = cfg.default_ac_max_performance;
    active_fan_curve = none;
    active_gpu_clock = none;
    gpu_follows_tdp = false;
    is_ac_connected = is_physically_plugged;
    ac_locked = false;
  }

  unfoldable pub known_state :
      PowerEnvelopeLimits → DaemonConfig → Option ProfileState → ProfileState
  known_state limits cfg (some s) = record s { is_ac_connected = is_physically_plugged }
  known_state limits cfg none = first_state limits cfg

  unfoldable pub initial_state :
      PowerEnvelopeLimits → DaemonConfig → Option ProfileState → ProfileState
  initial_state limits cfg loaded =
      let s = known_state limits cfg loaded in
      record s {
        active_fan_curve = curve_or_default s.active_fan_curve cfg.default_fan_curve;
        active_profile = cfg.default_platform_profile;
      }

  -- `Executor::new`, with the transition that waits for it.
  abbrev pub first_executor : PowerEnvelopeLimits → DaemonConfig → Option ProfileState → Executor H
  first_executor limits cfg loaded = record {
    hardware = h;
    device_limits = limits;
    config = cfg.runtime;
    queue = Transition.system_resumed ∷ [];
    capacity = cfg.channel_capacity;
    state = initial_state limits cfg loaded;
    observed = true;
  }

  unfoldable pub start_with : DaemonConfig → Option ProfileState → PowerEnvelopeLimits → Start H
  start_with cfg loaded limits =
      if cfg.channel_capacity == 0 then panicked else started (first_executor limits cfg loaded)

  unfoldable pub start_by :
      DaemonConfig → Option ProfileState → Fallible PowerEnvelopeLimits → Start H
  start_by cfg loaded (ok limits) = start_with cfg loaded limits
  start_by cfg loaded (err e) = refused e

  -- `run_daemon` until the executor exists.
  abbrev pub start : DaemonConfig → Option ProfileState → Start H
  start cfg loaded = start_by cfg loaded (backend.power.get_limits h)
