-- ===== src/Asus/FanCurve.antt =====
-- hpd-backend-asus/src/fan_curve.rs: the fan curves of the two fans, as attributes of a hwmon device.
mod Presets
pub mod Attributes
pub mod Writes
pub mod Selections
pub mod ReadBack
pub use Presets.*
use Prim.Native.String.{◌++◌}
use hpd_handheld_power_daemo.Prelude.{
  refl, sym, ap, ◌∙◌, true, false, not, ◌&&◌, ◌||◌, ltb, leb, Bool, Bool-cases, inl, inr, ℕ, zero,
  suc, ◌+◌, ◌-◌, ◌*◌, ◌/◌, ◌%◌, ◌^◌, ◌≤◌, ◌<◌, ◌≡◌, ◌⊎◌, ◌↔◌, Option, none, some, ok, err, Result,
  ◌>>=◌, ◌>>◌, arith, String, Equality, ◌==◌, ◌!=◌, nat_eq, string_eq, if◌then◌else◌, All, any, all,
  length, is_empty, List, [], ◌∷◌,
}
use hpd_handheld_power_daemo.Decimal.{to_string, parse}
use hpd_handheld_power_daemo.Text.{trim}
use hpd_handheld_power_daemo.Error.{Fallible, HpdError, BackendError}
use hpd_handheld_power_daemo.Sysfs.{SysfsIo, of_sysfs}
use hpd_handheld_power_daemo.Capability.FanCurve.{
  FanCurvePoint, FanCurve, FanCurvePreset, FanCurveSelection, curve_eq, points, validate_against,
}
use hpd_handheld_power_daemo.Capability.Backend.{Write, FanCurveControl}
use hpd_handheld_power_daemo.Asus.Power.{and_then}
use hpd_handheld_power_daemo.Asus.Hwmon.{find_hwmon_by_name}

abbrev pub curve_hwmon_name : String
curve_hwmon_name = "asus_custom_fan_curve"

abbrev pub enable_custom : String
enable_custom = "1"

abbrev pub enable_auto : String
enable_auto = "2"

abbrev pub fan_cpu : ℕ
fan_cpu = 1

abbrev pub fan_gpu : ℕ
fan_gpu = 2

-- `format!("{base}/pwm{fan}_auto_point{point}_{kind}")`, without `base`.
abbrev pub point_attr : ℕ → ℕ → String → String
point_attr fan point kind =
    "/pwm" ++ (to_string fan ++ ("_auto_point" ++ (to_string point ++ ("_" ++ kind))))

abbrev pub point_path : String → ℕ → ℕ → String → String
point_path base fan point kind = base ++ point_attr fan point kind

-- `format!("{base}/pwm{fan}_enable")`, without `base`.
abbrev pub enable_attr : ℕ → String
enable_attr fan = "/pwm" ++ (to_string fan ++ "_enable")

abbrev pub enable_path : String → ℕ → String
enable_path base fan = base ++ enable_attr fan

-- `map_err` of `parse::<u8>`
abbrev pub of_parsed_u8 : String → Option ℕ → Fallible ℕ
of_parsed_u8 raw (some n) = ok n
of_parsed_u8 raw none =
    err (HpdError.backend (BackendError.parse_failed "fan_curve_point" raw "expected u8 (0-255)"))

-- The curves of the processor and of the graphics, resolved from a selection.
unfoldable pub resolve : FanCurveSelection → Fallible (FanCurve × FanCurve)
resolve (FanCurveSelection.preset p) = ok (preset_curves p)
resolve (FanCurveSelection.custom cpu gpu) = do
  validate_against cpu rc73xa_fan_curve_constraints
  validate_against gpu rc73xa_fan_curve_constraints
  ok (cpu, gpu)

-- A write that needs a value, where there is one.
abbrev pub with_ok {ℓ} : {A : Type 0} {H : Type ℓ} → Fallible A → (A → Write H) → Write H
with_ok (ok a) next h = next a h
with_ok (err e) next h = (err e, h)

-- The fields of the points, as `{:?}` prints them.
abbrev pub debug_point : FanCurvePoint → String
debug_point p =
    "FanCurvePoint { temp_c: " ++ (to_string p.temp_c ++ (", pwm: " ++ (to_string p.pwm ++ " }")))

unfoldable pub debug_rest : List FanCurvePoint → String
debug_rest List.[] = "]"
debug_rest (List.◌∷◌ p ps) = ", " ++ (debug_point p ++ debug_rest ps)

unfoldable pub debug_points : List FanCurvePoint → String
debug_points List.[] = "[]"
debug_points (List.◌∷◌ p ps) = "[" ++ (debug_point p ++ debug_rest ps)

abbrev pub mismatch : FanCurve × FanCurve → FanCurve × FanCurve → HpdError
mismatch (cpu, gpu) (applied_cpu, applied_gpu) = HpdError.backend (
    BackendError.other (
      "fan curve read-back mismatch: wrote cpu="
      ++ (debug_points (points cpu)
          ++ (" gpu="
              ++ (debug_points (points gpu)
                  ++ (", EC reports cpu="
                      ++ (debug_points (points applied_cpu)
                          ++ (" gpu=" ++ debug_points (points applied_gpu)))))))))

-- The comparison at the end of `apply`.
abbrev pub compare_applied : FanCurve × FanCurve → FanCurve × FanCurve → Fallible (Unit {0})
compare_applied (cpu, gpu) (applied_cpu, applied_gpu) =
    if applied_cpu != cpu || applied_gpu != gpu
    then err (mismatch (cpu, gpu) (applied_cpu, applied_gpu))
    else ok tt

-- The loop of `active_selection` over the presets.
unfoldable pub match_preset : FanCurve × FanCurve → List FanCurvePreset → FanCurveSelection
match_preset (cpu, gpu) List.[] = FanCurveSelection.custom cpu gpu
match_preset (cpu, gpu) (List.◌∷◌ p ps) =
    let (preset_cpu, preset_gpu) = preset_curves p in
    let later = match_preset (cpu, gpu) ps in
    if cpu == preset_cpu && gpu == preset_gpu then FanCurveSelection.preset p else later

module _ {ℓ} {H : Type ℓ} (sysfs : SysfsIo H) where
  abbrev pub write : String → String → Write H
  write path v h = let (r, h') = sysfs.write_string path v h in (of_sysfs r, h')

  abbrev pub of_base : Option String → Fallible String
  of_base (some base) = ok base
  of_base none = err HpdError.feature_unsupported

  abbrev pub curve_base : H → Fallible String
  curve_base h = of_base (find_hwmon_by_name sysfs curve_hwmon_name h)

  -- The loop of `write_fan_points`, behind i points.
  unfoldable pub write_points_from : String → ℕ → ℕ → List FanCurvePoint → Write H
  write_points_from base fan i List.[] h = (ok tt, h)
  write_points_from base fan i (List.◌∷◌ p ps) h =
      and_then
        (and_then (write (point_path base fan (i + 1) "temp") (to_string p.temp_c) h)
          (write (point_path base fan (i + 1) "pwm") (to_string p.pwm)))
        (write_points_from base fan (i + 1) ps)

  abbrev pub write_fan_points : String → ℕ → FanCurve → Write H
  write_fan_points base fan curve = write_points_from base fan 0 (points curve)

  unfoldable pub read_u8 : String → H → Fallible ℕ
  read_u8 path h = do
    raw ← of_sysfs (sysfs.read_string path h)
    of_parsed_u8 raw (parse 255 (trim raw))

  -- One round of the loop of `read_fan_points`.
  abbrev pub read_point : String → ℕ → ℕ → H → Fallible FanCurvePoint
  read_point base fan point h = do
    temp ← read_u8 (point_path base fan point "temp") h
    pwm ← read_u8 (point_path base fan point "pwm") h
    ok (record { temp_c = temp; pwm = pwm })

  unfoldable pub read_fan_points : String → ℕ → H → Fallible FanCurve
  read_fan_points base fan h = do
    p1 ← read_point base fan 1 h
    p2 ← read_point base fan 2 h
    p3 ← read_point base fan 3 h
    p4 ← read_point base fan 4 h
    p5 ← read_point base fan 5 h
    p6 ← read_point base fan 6 h
    p7 ← read_point base fan 7 h
    p8 ← read_point base fan 8 h
    ok (record {
      point1 = p1;
      point2 = p2;
      point3 = p3;
      point4 = p4;
      point5 = p5;
      point6 = p6;
      point7 = p7;
      point8 = p8;
    })

  unfoldable pub get_curves : H → Fallible (FanCurve × FanCurve)
  get_curves h = do
    base ← curve_base h
    cpu ← read_fan_points base fan_cpu h
    gpu ← read_fan_points base fan_gpu h
    ok (cpu, gpu)

  abbrev pub confirm : FanCurve × FanCurve → Write H
  confirm curves h = (get_curves h >>= compare_applied curves, h)

  unfoldable pub write_curves : String → FanCurve × FanCurve → Write H
  write_curves base (cpu, gpu) h =
      and_then
        (and_then
          (and_then (write_fan_points base fan_cpu cpu h) (write_fan_points base fan_gpu gpu))
          (write (enable_path base fan_cpu) enable_custom))
        (write (enable_path base fan_gpu) enable_custom)

  unfoldable pub apply : FanCurveSelection → Write H
  apply selection h =
      with_ok (resolve selection)
        (λ curves h1.
          with_ok (curve_base h1)
            (λ base h2. and_then (write_curves base curves h2) (confirm curves)) h1)
        h

  unfoldable pub reset_to_auto : Write H
  reset_to_auto h =
      with_ok (curve_base h)
        (λ base h1.
          and_then (write (enable_path base fan_cpu) enable_auto h1)
            (write (enable_path base fan_gpu) enable_auto))
        h

  unfoldable pub active_selection : H → Fallible (Option FanCurveSelection)
  active_selection h = do
    base ← curve_base h
    mode ← of_sysfs (sysfs.read_string (enable_path base fan_cpu) h)
    if trim mode == enable_auto
        then ok none
        else do curves ← get_curves h; ok (some (match_preset curves known_presets))

  abbrev pub asus_fan_curve : FanCurveControl H
  asus_fan_curve = record {
    apply = apply;
    reset_to_auto = reset_to_auto;
    active_selection = active_selection;
  }
