-- ===== src/Asus/Profile.antt =====
-- hpd-backend-asus/src/profile.rs: the platform profile of ACPI.
pub mod ReadBack
use Prim.Native.String.{◌++◌}
use hpd_handheld_power_daemo.Prelude.{
  refl, sym, ap, ◌∙◌, true, false, not, ◌&&◌, ◌||◌, ltb, leb, Bool, Bool-cases, inl, inr, ℕ, zero,
  suc, ◌+◌, ◌-◌, ◌*◌, ◌/◌, ◌%◌, ◌^◌, ◌≤◌, ◌<◌, ◌≡◌, ◌⊎◌, ◌↔◌, Option, none, some, ok, err, Result,
  ◌>>=◌, ◌>>◌, arith, String, Equality, ◌==◌, ◌!=◌, nat_eq, string_eq, if◌then◌else◌, All, any, all,
  length, is_empty, List, [], ◌∷◌,
}
use hpd_handheld_power_daemo.Text.{split_whitespace}
use hpd_handheld_power_daemo.Error.{Fallible}
use hpd_handheld_power_daemo.Sysfs.{SysfsIo, of_sysfs}
use hpd_handheld_power_daemo.Capability.Profile.{ProfileName}
use hpd_handheld_power_daemo.Capability.Backend.{Write, PlatformProfile}

abbrev pub profile_path : String
profile_path = "/sys/firmware/acpi/platform_profile"

abbrev pub choices_path : String
choices_path = "/sys/firmware/acpi/platform_profile_choices"

abbrev pub acpi_quiet : String
acpi_quiet = "quiet"

abbrev pub acpi_low_power : String
acpi_low_power = "low-power"

abbrev pub acpi_balanced : String
acpi_balanced = "balanced"

abbrev pub acpi_performance : String
acpi_performance = "performance"

unfoldable pub parse_profile : String → ProfileName
parse_profile val =
    if val == acpi_low_power || val == acpi_quiet
    then ProfileName.power_saver
    else if val == acpi_balanced
    then ProfileName.balanced
    else if val == acpi_performance
    then ProfileName.performance
    else ProfileName.custom val

-- `choices.contains(...)`
abbrev pub has_choice : String → List String → Bool
has_choice choice = any (λ c. c == choice)

unfoldable pub resolve_target_string : ProfileName → List String → String
resolve_target_string ProfileName.power_saver choices =
    if has_choice acpi_quiet choices
    then acpi_quiet
    else if has_choice acpi_low_power choices
    then acpi_low_power
    else acpi_balanced
resolve_target_string ProfileName.balanced choices = acpi_balanced
resolve_target_string ProfileName.performance choices = acpi_performance
resolve_target_string (ProfileName.custom c) choices = c

module _ {ℓ} {H : Type ℓ} (sysfs : SysfsIo H) where
  unfoldable pub get_available_choices : H → Fallible (List String)
  get_available_choices h =
      of_sysfs (sysfs.read_string choices_path h) >>= (λ val. ok (split_whitespace val))

  unfoldable pub get_active_profile : H → Fallible ProfileName
  get_active_profile h =
      of_sysfs (sysfs.read_string profile_path h) >>= (λ val. ok (parse_profile val))

  abbrev pub write_choice : ProfileName → Fallible (List String) → Write H
  write_choice p (err e) h = (err e, h)
  write_choice p (ok choices) h =
      let (r, h') = sysfs.write_string profile_path (resolve_target_string p choices) h in
      (of_sysfs r, h')

  unfoldable pub set_active_profile : ProfileName → Write H
  set_active_profile p h = write_choice p (get_available_choices h) h

  abbrev pub asus_profile : PlatformProfile H
  asus_profile = record {
    set_active_profile = set_active_profile;
    get_active_profile = get_active_profile;
  }
