-- ===== src/Dbus/Service/Requests.antt =====
-- hpd-dbus/src/service.rs: what a caller asks for, and what it is read as; hpd-dbus/src/actions.rs: the
-- actions that polkit knows; `FanCurvePreset` of hpd-capabilities/src/fan_curve.rs as a text.
use Prim.Native.String.{◌++◌}
use hpd_handheld_power_daemo.Prelude.{
  Bool, ℕ, ok, err, Result, String, ◌==◌, nat_eq, string_eq, if◌then◌else◌, length, List,
}
use hpd_handheld_power_daemo.Decimal.{to_string}
use hpd_handheld_power_daemo.Text.{trim, to_lowercase}
use hpd_handheld_power_daemo.Error.{HpdError, Violation}
use hpd_handheld_power_daemo.Capability.FanCurve.{FanCurvePoint, FanCurve, FanCurvePreset}
use hpd_handheld_power_daemo.Dbus.Errors.{FdoError, invalid_args}

pub data PolkitAction : Type 0 where
  set_tdp_action set_charge_action set_profile_action : PolkitAction

unfoldable pub as_id : PolkitAction → String
as_id set_tdp_action = "dev.cirodev.hpd.set-tdp"
as_id set_charge_action = "dev.cirodev.hpd.set-charge"
as_id set_profile_action = "dev.cirodev.hpd.set-profile"

-- The setters, with their arguments. A point of a curve is a pair of `u8` values.
pub data Request : Type 0 where
  set_spl : ℕ → Request
  set_preset : String → Request
  set_charge_threshold : ℕ → Request
  set_ac_max_performance : Bool → Request
  set_profile : String → Request
  set_cooling_level : String → Request
  set_fan_auto : Request
  reset_fan_curve : Request
  set_fan_curve : List (ℕ × ℕ) → List (ℕ × ℕ) → Request
  enable_gpu_auto_follow : Request
  reset_gpu_clocks : Request
  restore_defaults : Request

-- `FanCurvePreset::as_str`
abbrev pub cooling_level_text : FanCurvePreset → String
cooling_level_text FanCurvePreset.silent = "silent"
cooling_level_text FanCurvePreset.balanced = "balanced"
cooling_level_text FanCurvePreset.aggressive = "aggressive"

-- The `match` of `from_str` on the text without white space at its ends, in lower case.
abbrev pub cooling_level_named : String → Result HpdError FanCurvePreset
cooling_level_named other =
    if other == "silent"
    then ok FanCurvePreset.silent
    else if other == "balanced"
    then ok FanCurvePreset.balanced
    else if other == "aggressive"
    then ok FanCurvePreset.aggressive
    else err (HpdError.invariant_violation (Violation.unknown_fan_curve_preset other))

-- `FanCurvePreset::from_str`
unfoldable pub cooling_level_from_str : String → Result HpdError FanCurvePreset
cooling_level_from_str s = cooling_level_named (to_lowercase (trim s))

abbrev pub of_cooling_level :
    (HpdError → String) → Result HpdError FanCurvePreset → Result FdoError FanCurvePreset
of_cooling_level display (ok p) = ok p
of_cooling_level display (err e) = err (invalid_args (display e))

abbrev pub curve_error : String → String → FdoError
curve_error which text = invalid_args (which ++ text)

abbrev pub point_of : ℕ × ℕ → FanCurvePoint
point_of (temp_c, pwm) = record { temp_c = temp_c; pwm = pwm }

-- Exactly eight points are a curve.
unfoldable pub parse_fan_curve : List (ℕ × ℕ) → Result FdoError FanCurve
parse_fan_curve
      (List.◌∷◌ a (
        List.◌∷◌ b
          (List.◌∷◌ c (List.◌∷◌ d (List.◌∷◌ e (List.◌∷◌ f (List.◌∷◌ g (List.◌∷◌ h List.[])))))))) =
    ok (record {
      point1 = point_of a;
      point2 = point_of b;
      point3 = point_of c;
      point4 = point_of d;
      point5 = point_of e;
      point6 = point_of f;
      point7 = point_of g;
      point8 = point_of h;
    })
parse_fan_curve ps = err (
    invalid_args
      ("fan curve must have exactly 8 (temp_c, pwm) points, got " ++ to_string (length ps)))
