-- ===== src/Dbus/Service.antt =====
-- hpd-dbus/src/service.rs: the methods of `dev.cirodev.hpd.PowerDaemon1` that write, and
-- hpd-dbus/src/actions.rs. Whether polkit authorizes the caller for an action, and whether the
-- executor still takes transitions, is given for each call.
mod Requests
pub mod Properties
pub mod Authorization
unfoldable pub use Requests.*
use hpd_handheld_power_daemo.Prelude.{
  refl, sym, ap, ◌∙◌, true, false, not, ◌&&◌, ◌||◌, ltb, leb, Bool, Bool-cases, inl, inr, ℕ, zero,
  suc, ◌+◌, ◌-◌, ◌*◌, ◌/◌, ◌%◌, ◌^◌, ◌≤◌, ◌<◌, ◌≡◌, ◌⊎◌, ◌↔◌, Option, none, some, ok, err, Result,
  ◌>>=◌, ◌>>◌, arith, String, Equality, ◌==◌, ◌!=◌, nat_eq, string_eq, if◌then◌else◌, All, any, all,
  length, is_empty, List, [], ◌∷◌, ◌++◌,
}
use hpd_handheld_power_daemo.Error.{Fallible, HpdError}
use hpd_handheld_power_daemo.Capability.Charge.{min_charge_threshold, max_charge_threshold}
use hpd_handheld_power_daemo.Capability.Profile.{ProfileName, TdpPreset}
use hpd_handheld_power_daemo.Capability.Profile.Names.{profile_from_str, preset_from_str}
use hpd_handheld_power_daemo.Capability.FanCurve.{
  FanCurvePoint, FanCurve, FanCurveConstraints, FanCurvePreset, validate_against,
}
use hpd_handheld_power_daemo.Core.State.{ProfileState}
use hpd_handheld_power_daemo.Core.Transition.{Transition}
use hpd_handheld_power_daemo.Dbus.Errors.{FdoError, invalid_args, failed, auth_failed, of_from_str}

-- The interface object, as far as its setters use it: the limits of a fan curve and whether there is
-- a GPU clock range come from the backend, and the text of an error of the capabilities is given by
-- `display`.
pub record Interface : Type 0 where
  pub curve_constraints : Option FanCurveConstraints
  pub has_gpu_clock : Bool
  pub display : HpdError → String

-- One call: the caller's authorizations, and whether the channel is open.
pub record Call : Type 0 where
  pub authorized : PolkitAction → Bool
  pub executor_up : Bool

abbrev pub auth_denied : FdoError
auth_denied = auth_failed "Not authorized by polkit"

abbrev pub executor_down : FdoError
executor_down = failed "Internal daemon error: Executor down"

abbrev pub locked_on_ac : FdoError
locked_on_ac =
    failed
      "Locked: on AC power the device is pinned to maximum performance (Performance / Max TDP / Aggressive). Unplug to adjust (the battery charge limit stays editable)."

abbrev pub reject_if_locked : ProfileState → Result FdoError (Unit {0})
reject_if_locked st = if st.ac_locked then err locked_on_ac else ok tt

abbrev pub check : Call → PolkitAction → Result FdoError (Unit {0})
check call action = if call.authorized action then ok tt else err auth_denied

-- The three checks of `restore_defaults`, joined by `&&`.
abbrev pub check_all : Call → Result FdoError (Unit {0})
check_all call =
    if call.authorized set_tdp_action
      && call.authorized set_charge_action
      && call.authorized set_profile_action
    then ok tt
    else err auth_denied

abbrev pub require_threshold : ℕ → Result FdoError (Unit {0})
require_threshold threshold =
    if ltb threshold min_charge_threshold || ltb max_charge_threshold threshold
    then err (invalid_args "Charge limit must be between 20 and 100")
    else ok tt

abbrev pub require_curve : Option FanCurveConstraints → Result FdoError FanCurveConstraints
require_curve none = err (failed "this device has no programmable fan curve")
require_curve (some c) = ok c

abbrev pub require_gpu_clock : Bool → Result FdoError (Unit {0})
require_gpu_clock false = err (failed "this device has no programmable GPU clock range")
require_gpu_clock true = ok tt

-- `map_err(|e| InvalidArgs(format!("cpu curve, {e}")))`
abbrev pub of_validation : (HpdError → FdoError) → Fallible (Unit {0}) → Result FdoError (Unit {0})
of_validation text (ok u) = ok tt
of_validation text (err e) = err (text e)

module _ (api : Interface) where
  -- The bodies of the setters up to `self.send`: the transition to send, or why there is none.
  abbrev pub spl_transition : Call → ProfileState → ℕ → Result FdoError Transition
  spl_transition call st watts = do
    reject_if_locked st
    check call set_tdp_action
    ok (Transition.set_spl watts)

  abbrev pub preset_transition : Call → ProfileState → String → Result FdoError Transition
  preset_transition call st name = do
    reject_if_locked st
    check call set_tdp_action
    p ← of_from_str (preset_from_str name)
    ok (Transition.set_preset p)

  abbrev pub threshold_transition : Call → ℕ → Result FdoError Transition
  threshold_transition call threshold = do
    require_threshold threshold
    check call set_charge_action
    ok (Transition.charge_threshold_changed threshold)

  abbrev pub ac_max_transition : Call → Bool → Result FdoError Transition
  ac_max_transition call enabled = do
    check call set_profile_action
    ok (Transition.set_ac_max_performance enabled)

  abbrev pub profile_transition : Call → ProfileState → String → Result FdoError Transition
  profile_transition call st name = do
    reject_if_locked st
    check call set_profile_action
    p ← of_from_str (profile_from_str name)
    ok (Transition.set_profile p)

  abbrev pub cooling_transition : Call → ProfileState → String → Result FdoError Transition
  cooling_transition call st name = do
    reject_if_locked st
    p ← of_cooling_level api.display (cooling_level_from_str name)
    check call set_profile_action
    ok (Transition.set_cooling_level p)

  abbrev pub fan_auto_transition : Call → ProfileState → Result FdoError Transition
  fan_auto_transition call st = do
    reject_if_locked st
    check call set_profile_action
    ok Transition.enable_fan_auto

  abbrev pub fan_reset_transition : Call → ProfileState → Result FdoError Transition
  fan_reset_transition call st = do
    reject_if_locked st
    check call set_profile_action
    ok Transition.reset_fan_curve

  abbrev pub fan_curve_transition :
      Call → ProfileState → List (ℕ × ℕ) → List (ℕ × ℕ) → Result FdoError Transition
  fan_curve_transition call st cpu gpu = do
    reject_if_locked st
    constraints ← require_curve api.curve_constraints
    cpu_curve ← parse_fan_curve cpu
    gpu_curve ← parse_fan_curve gpu
    of_validation (λ e. curve_error "cpu curve, " (api.display e))
        (validate_against cpu_curve constraints)
    of_validation (λ e. curve_error "gpu curve, " (api.display e))
        (validate_against gpu_curve constraints)
    check call set_profile_action
    ok (Transition.set_custom_fan_curve cpu_curve gpu_curve)

  abbrev pub gpu_follow_transition : Call → ProfileState → Result FdoError Transition
  gpu_follow_transition call st = do
    reject_if_locked st
    require_gpu_clock api.has_gpu_clock
    check call set_profile_action
    ok Transition.enable_gpu_auto_follow

  abbrev pub gpu_reset_transition : Call → ProfileState → Result FdoError Transition
  gpu_reset_transition call st = do
    reject_if_locked st
    check call set_profile_action
    ok Transition.reset_gpu_clocks

  abbrev pub defaults_transition : Call → ProfileState → Result FdoError Transition
  defaults_transition call st = do
    reject_if_locked st
    check_all call
    ok Transition.restore_defaults

  unfoldable pub prepare : Call → ProfileState → Request → Result FdoError Transition
  prepare call st (set_spl watts) = spl_transition call st watts
  prepare call st (set_preset name) = preset_transition call st name
  prepare call st (set_charge_threshold threshold) = threshold_transition call threshold
  prepare call st (set_ac_max_performance enabled) = ac_max_transition call enabled
  prepare call st (set_profile name) = profile_transition call st name
  prepare call st (set_cooling_level name) = cooling_transition call st name
  prepare call st set_fan_auto = fan_auto_transition call st
  prepare call st reset_fan_curve = fan_reset_transition call st
  prepare call st (set_fan_curve cpu gpu) = fan_curve_transition call st cpu gpu
  prepare call st enable_gpu_auto_follow = gpu_follow_transition call st
  prepare call st reset_gpu_clocks = gpu_reset_transition call st
  prepare call st restore_defaults = defaults_transition call st

  -- `self.send(transition)`: the answer, and what is in the channel.
  abbrev pub send : Call → Result FdoError Transition → Result FdoError (Unit {0}) × List Transition
  send call (err e) = (err e, [])
  send call (ok t) = if call.executor_up then (ok tt, t ∷ []) else (err executor_down, [])

  unfoldable pub handle :
      Call → ProfileState → Request → Result FdoError (Unit {0}) × List Transition
  handle call st r = send call (prepare call st r)
