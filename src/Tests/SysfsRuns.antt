-- ===== src/Tests/SysfsRuns.antt =====
-- Runs of the rest of the ASUS backend (hpd-backend-asus/src) on a file system that keeps what is
-- written.
use hpd_handheld_power_daemo.Prelude.{
  refl, true, ◌≡◌, none, some, ok, arith, String, ◌==◌, nat_eq, string_eq, if◌then◌else◌, List,
}
use hpd_handheld_power_daemo.Decimal.{parse, parse_digits, to_string, digits}
use hpd_handheld_power_daemo.Text.{
  lines, lines_from, without_return, strip_prefix, leading_digits, trim, trim_start, trim_end,
  words_from, split_whitespace,
}
use hpd_handheld_power_daemo.Sysfs.Real.{FileSystem, real_sysfs}
use hpd_handheld_power_daemo.Capability.Profile.{ProfileName}
use hpd_handheld_power_daemo.Capability.FanCurve.{FanCurvePreset, FanCurveSelection}
use hpd_handheld_power_daemo.Capability.GpuClock.{GpuClockRange}
use hpd_handheld_power_daemo.Asus.AcConnected.{is_ac_connected}
use hpd_handheld_power_daemo.Asus.Hwmon.{find_hwmon_by_name, find_from, resolve_base, cached}
use hpd_handheld_power_daemo.Asus.Hwmon.Lookup.{IsResolved, resolve_base-IsResolved}
use hpd_handheld_power_daemo.Asus.FanCurve.{
  curve_base, resolve, apply, get_curves, active_selection, reset_to_auto, preset_curves,
}
use hpd_handheld_power_daemo.Asus.FanCurve.Selections.{IsReportOf, Outcome, apply-IsSafe}
use hpd_handheld_power_daemo.Asus.FanCurve.ReadBack.{
  active_selection-apply, active_selection-reset_to_auto,
}
use hpd_handheld_power_daemo.Asus.GpuClock.{
  parse_constraints, find_constraints, parse_committed_sclk, committed_sclk, mhz_values, mhz_value,
  gpu_base, set_range,
}
use hpd_handheld_power_daemo.Asus.GpuClock.Cleanup.{IsGpuNode, Ends, set_range-Ends}
use hpd_handheld_power_daemo.Asus.Profile.{
  get_available_choices, get_active_profile, set_active_profile,
}
use hpd_handheld_power_daemo.Asus.Profile.ReadBack.{ReadsAs, get_active_profile-set_active_profile}
use hpd_handheld_power_daemo.Netlink.{power_supply_root, read_mains_online_at}
use hpd_handheld_power_daemo.Netlink.SameSource.{is_plugged, is_ac_connected-read_mains_online_at}
use hpd_handheld_power_daemo.Tests.AsusRuns.{files, files-IsStore}

abbrev curve_files : String → String
curve_files p = if p == "/sys/class/hwmon/hwmon3/name" then "asus_custom_fan_curve" else ""

curve_found : curve_base files curve_files ≡ ok "/sys/class/hwmon/hwmon3"
unfolding find_hwmon_by_name find_from to_string digits trim trim_start trim_end
curve_found = refl

abbrev silent : FanCurveSelection
silent = FanCurveSelection.preset FanCurvePreset.silent

silent_resolved : resolve silent ≡ ok (preset_curves FanCurvePreset.silent)
unfolding resolve
silent_resolved = refl

active_selection-apply_example :
    ((apply files silent curve_files).0 ≡ ok tt)
    × (get_curves files (apply files silent curve_files).1
        ≡ ok (preset_curves FanCurvePreset.silent))
    × (reported : FanCurveSelection) × (active_selection files (apply files silent curve_files).1
        ≡ ok (some reported))
    × IsReportOf silent (preset_curves FanCurvePreset.silent) reported
active_selection-apply_example =
    active_selection-apply files files-IsStore "/sys/class/hwmon/hwmon3" silent
      (preset_curves FanCurvePreset.silent) curve_files curve_found silent_resolved (ground arith)
      (ground arith)

apply-IsSafe_example : Outcome files silent curve_files
apply-IsSafe_example = apply-IsSafe files silent curve_files

active_selection-reset_to_auto_example :
    ((reset_to_auto files curve_files).0 ≡ ok tt)
    × (active_selection files (reset_to_auto files curve_files).1 ≡ ok none)
active_selection-reset_to_auto_example =
    active_selection-reset_to_auto files files-IsStore "/sys/class/hwmon/hwmon3" curve_files
      curve_found

resolve_base-IsResolved_example :
    IsResolved files "asus_custom_fan_curve" curve_files
      (resolve_base files "asus_custom_fan_curve" curve_files List.[])
resolve_base-IsResolved_example =
    resolve_base-IsResolved files "asus_custom_fan_curve" curve_files List.[]

abbrev gpu_files : String → String
gpu_files p =
    if p == "/sys/class/hwmon/hwmon5/name"
    then "amdgpu"
    else if p == "/sys/class/hwmon/hwmon5/device/pp_od_clk_voltage"
    then "OD_SCLK:\n0: 600Mhz\n1: 2900Mhz\nOD_RANGE:\nSCLK: 600Mhz 2900Mhz\n"
    else "auto"

files-IsGpuNode : IsGpuNode files "/sys/class/hwmon/hwmon5"
unfolding trim trim_end trim_start
files-IsGpuNode = record {
  auto_accepted = λ h. refl;
  auto_read_back = λ h. refl;
  name_after_od = λ v h. refl;
  name_after_level = λ v h. refl;
}

abbrev full_range : GpuClockRange
full_range = record { min_mhz = 600; max_mhz = 2000 }

gpu_found : (gpu_base files (gpu_files, List.[])).0 ≡ ok "/sys/class/hwmon/hwmon5"
unfolding gpu_base resolve_base cached find_hwmon_by_name find_from to_string digits trim trim_start
    trim_end
gpu_found = refl

set_range-Ends_example :
    Ends files "/sys/class/hwmon/hwmon5" files-IsGpuNode full_range gpu_files
      (set_range files full_range (gpu_files, List.[]))
set_range-Ends_example =
    set_range-Ends files "/sys/class/hwmon/hwmon5" files-IsGpuNode full_range (gpu_files, List.[])
      gpu_found

abbrev profile_files : String → String
profile_files p =
    if p == "/sys/firmware/acpi/platform_profile_choices"
    then "low-power balanced performance"
    else "balanced"

abbrev advertised : List String
advertised = List.◌∷◌ "low-power" (List.◌∷◌ "balanced" (List.◌∷◌ "performance" List.[]))

choices_read : get_available_choices files profile_files ≡ ok advertised
unfolding get_available_choices split_whitespace words_from trim trim_end trim_start
choices_read = refl

get_active_profile-set_active_profile_example :
    ((set_active_profile files ProfileName.power_saver profile_files).0 ≡ ok tt)
    × (q : ProfileName) × (get_active_profile files
          (set_active_profile files ProfileName.power_saver profile_files).1
        ≡ ok q)
    × ReadsAs ProfileName.power_saver advertised q
get_active_profile-set_active_profile_example =
    get_active_profile-set_active_profile files files-IsStore ProfileName.power_saver advertised
      profile_files choices_read

abbrev plugged_in : FileSystem (String → String)
plugged_in = record {
  read_to_string = λ p h. ok (h p);
  write = λ p v h. (ok tt, h);
  exists = λ p h. true;
  read_dir = λ p h. some (List.◌∷◌ "AC0" List.[]);
}

is_ac_connected-read_mains_online_at_example :
    is_ac_connected
      (real_sysfs plugged_in)
      (λ p. if p == "/sys/class/power_supply/AC0/type" then "Mains\n" else "1\n")
    ≡ ok (
        is_plugged (
          read_mains_online_at plugged_in power_supply_root
            (λ p. if p == "/sys/class/power_supply/AC0/type" then "Mains\n" else "1\n")))
is_ac_connected-read_mains_online_at_example =
    is_ac_connected-read_mains_online_at plugged_in
      (λ p. if p == "/sys/class/power_supply/AC0/type" then "Mains\n" else "1\n")

-- The text that the amdgpu driver shows.
abbrev od_table : String
od_table =
    "OD_SCLK:\n0:        600Mhz\n1:       2900Mhz\nOD_RANGE:\nSCLK:     600Mhz       2900Mhz\n"

od_range_read :
    parse_constraints od_table ≡ ok (record { range_min_mhz = 600; range_max_mhz = 2900 })
unfolding parse_constraints find_constraints lines lines_from without_return trim trim_start
    trim_end strip_prefix split_whitespace words_from mhz_values mhz_value leading_digits parse
    parse_digits
od_range_read = refl

committed_read : parse_committed_sclk od_table ≡ ok (record { min_mhz = 600; max_mhz = 2900 })
unfolding parse_committed_sclk committed_sclk lines lines_from without_return trim trim_start
    trim_end strip_prefix split_whitespace words_from mhz_value leading_digits parse parse_digits
committed_read = refl
