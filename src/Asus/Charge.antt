-- ===== src/Asus/Charge.antt =====
-- hpd-backend-asus/src/charge.rs: the charge end threshold.
pub mod Threshold
use Prim.Native.String.{◌++◌}
use hpd_handheld_power_daemo.Prelude.{
  ℕ, ◌≡◌, ◌||◌, String, Option, none, some, ok, err, ◌>>=◌, ltb, if◌then◌else◌,
}
use hpd_handheld_power_daemo.Decimal.{to_string, parse}
use hpd_handheld_power_daemo.Error.{Fallible, HpdError, BackendError, charge_out_of_range}
use hpd_handheld_power_daemo.Sysfs.{SysfsIo, of_sysfs}
use hpd_handheld_power_daemo.Capability.Charge.{min_charge_threshold, max_charge_threshold}

abbrev pub battery_path : String
battery_path = "/sys/class/power_supply/BAT0"

abbrev pub threshold_path : String
threshold_path = battery_path ++ "/charge_control_end_threshold"

-- `map_err` of `parse::<u8>`
abbrev pub of_parsed_threshold : String → Option ℕ → Fallible ℕ
of_parsed_threshold raw (some threshold) = ok threshold
of_parsed_threshold raw none =
    err (
      HpdError.backend (BackendError.parse_failed "charge_end_threshold" raw "expected u8 (0-100)"))

module _ {ℓ} {H : Type ℓ} (sysfs : SysfsIo H) where
  unfoldable pub get_end_threshold : H → Fallible ℕ
  get_end_threshold h = do
    raw ← of_sysfs (sysfs.read_string threshold_path h)
    of_parsed_threshold raw (parse 255 raw)

  unfoldable pub set_end_threshold : ℕ → H → Fallible (Unit {0}) × H
  set_end_threshold threshold h =
      let (r, h') = sysfs.write_string threshold_path (to_string threshold) h in
      if ltb threshold min_charge_threshold || ltb max_charge_threshold threshold
      then (
        err (
            HpdError.invariant_violation
              (charge_out_of_range min_charge_threshold max_charge_threshold threshold)),
        h,
      )
      else (of_sysfs r, h')
