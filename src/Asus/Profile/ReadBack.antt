-- ===== src/Asus/Profile/ReadBack.antt =====
-- What hpd-backend-asus/src/profile.rs reads back after it has set a profile.
use hpd_handheld_power_daemo.Prelude.{
  refl, ap, true, false, Bool-cases, inl, inr, ◌≡◌, ◌⊎◌, ok, ◌>>=◌, String, nat_eq, string_eq, List,
}
use hpd_handheld_power_daemo.Text.{trim, trim_start, trim_end}
use hpd_handheld_power_daemo.Sysfs.{SysfsIo, IsStore, of_sysfs}
use hpd_handheld_power_daemo.Capability.Profile.{ProfileName}
use hpd_handheld_power_daemo.Asus.Profile.{
  profile_path, acpi_quiet, acpi_low_power, parse_profile, has_choice, resolve_target_string,
  get_available_choices, get_active_profile, set_active_profile,
}

-- What the profile p reads as, once it is set where the firmware advertises the choices.
abbrev pub ReadsAs : ProfileName → List String → ProfileName → Type 0
ReadsAs ProfileName.power_saver choices q =
    ((q ≡ ProfileName.power_saver)
      × ((has_choice acpi_quiet choices ≡ true) ⊎ (has_choice acpi_low_power choices ≡ true)))
    ⊎ ((q ≡ ProfileName.balanced)
        × (has_choice acpi_quiet choices ≡ false)
        × (has_choice acpi_low_power choices ≡ false))
ReadsAs ProfileName.balanced choices q = q ≡ ProfileName.balanced
ReadsAs ProfileName.performance choices q = q ≡ ProfileName.performance
ReadsAs (ProfileName.custom c) choices q = q ≡ parse_profile (trim c)

parse_profile-resolve_target_string :
    (p : ProfileName) (choices : List String)
    → ReadsAs p choices (parse_profile (trim (resolve_target_string p choices)))
unfolding parse_profile resolve_target_string trim trim_start trim_end
parse_profile-resolve_target_string ProfileName.power_saver choices =
    elim (Bool-cases (has_choice acpi_quiet choices)) [
      | inl quiet ↦ rw quiet (inl (refl, inl refl))
      | inr not_quiet ↦ rw not_quiet (elim (Bool-cases (has_choice acpi_low_power choices)) [
        | inl low ↦ rw low (inl (refl, inr refl))
        | inr not_low ↦ rw not_low (inr (refl, refl, refl))
      ])
    ]
parse_profile-resolve_target_string ProfileName.balanced choices = refl
parse_profile-resolve_target_string ProfileName.performance choices = refl
parse_profile-resolve_target_string (ProfileName.custom c) choices = refl

module _ {ℓ} {H : Type ℓ} (sysfs : SysfsIo H) where
  -- On a file system that keeps what is written, where the choices of the firmware can be read, a
  -- profile is set and read back: the balanced and the performance profile as they are, power saving as
  -- it is where the firmware has a choice for it and as balanced where it has none, and a custom name
  -- as what the name without the blanks at its ends stands for.
  pub get_active_profile-set_active_profile :
      (store : IsStore sysfs) (p : ProfileName) (choices : List String) (h : H)
      → get_available_choices sysfs h ≡ ok choices
      → ((set_active_profile sysfs p h).0 ≡ ok tt)
        × (q : ProfileName) × (get_active_profile sysfs (set_active_profile sysfs p h).1 ≡ ok q)
        × ReadsAs p choices q
  unfolding set_active_profile get_active_profile
  get_active_profile-set_active_profile store p choices h e =
      let target = resolve_target_string p choices in
      rw e (
        ap of_sysfs (store.written profile_path target h),
        parse_profile (trim target),
        ap (λ r. of_sysfs r >>= (λ val. ok (parse_profile val)))
            (store.read_back profile_path target h),
        parse_profile-resolve_target_string p choices,
      )
