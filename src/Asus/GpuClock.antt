-- ===== src/Asus/GpuClock.antt =====
-- hpd-backend-asus/src/gpu_clock.rs: the clock range of the graphics, by the OverDrive attributes of
-- the amdgpu driver. The state is that of the file system, with the cache of the backend.
mod Parse
pub mod Cleanup
unfoldable pub use Parse.*
use Prim.Native.String.{◌++◌}
use hpd_handheld_power_daemo.Prelude.{
  refl, sym, ap, ◌∙◌, true, false, not, ◌&&◌, ◌||◌, ltb, leb, Bool, Bool-cases, inl, inr, ℕ, zero,
  suc, ◌+◌, ◌-◌, ◌*◌, ◌/◌, ◌%◌, ◌^◌, ◌≤◌, ◌<◌, ◌≡◌, ◌⊎◌, ◌↔◌, Option, none, some, ok, err, Result,
  ◌>>=◌, ◌>>◌, arith, String, Equality, ◌==◌, ◌!=◌, nat_eq, string_eq, if◌then◌else◌, All, any, all,
  length, is_empty, List, [], ◌∷◌,
}
use hpd_handheld_power_daemo.Decimal.{to_string}
use hpd_handheld_power_daemo.Text.{trim}
use hpd_handheld_power_daemo.Error.{Fallible, HpdError, BackendError}
use hpd_handheld_power_daemo.Sysfs.{SysfsIo, of_sysfs}
use hpd_handheld_power_daemo.Capability.GpuClock.{
  GpuClockRange, GpuClockConstraints, validate_range, range_eq,
}
use hpd_handheld_power_daemo.Asus.Hwmon.{HwmonCache, resolve_base}

abbrev pub gpu_hwmon_name : String
gpu_hwmon_name = "amdgpu"

abbrev pub force_level_attr : String
force_level_attr = "power_dpm_force_performance_level"

abbrev pub od_clk_voltage_attr : String
od_clk_voltage_attr = "pp_od_clk_voltage"

abbrev pub mode_manual : String
mode_manual = "manual"

abbrev pub mode_auto : String
mode_auto = "auto"

abbrev pub force_level_path : String → String
force_level_path base = base ++ ("/device/" ++ force_level_attr)

abbrev pub od_path : String → String
od_path base = base ++ ("/device/" ++ od_clk_voltage_attr)

-- A method of the backend.
abbrev pub Method {ℓ} : Type ℓ → Type 0 → Type ℓ
Method H A = H × HwmonCache → Fallible A × (H × HwmonCache)

-- `?` between two steps.
unfoldable pub then_with {ℓ} :
    {H : Type ℓ} {A B : Type 0}
    → Fallible A × (H × HwmonCache)
    → (A → Method H B)
    → Fallible B × (H × HwmonCache)
then_with (ok a, s) next = next a s
then_with (err e, s) next = (err e, s)

abbrev pub mismatch : GpuClockRange → GpuClockRange → HpdError
mismatch wrote committed = HpdError.backend (
    BackendError.other (
      "gpu clock read-back mismatch: wrote "
      ++ (debug_range wrote ++ (", driver reports " ++ debug_range committed))))

module _ {ℓ} {H : Type ℓ} (sysfs : SysfsIo H) where
  abbrev pub of_base : Option String → Fallible String
  of_base (some base) = ok base
  of_base none = err HpdError.feature_unsupported

  unfoldable pub gpu_base : Method H String
  gpu_base (h, cache) =
      let (base, cache') = resolve_base sysfs gpu_hwmon_name h cache in (of_base base, (h, cache'))

  -- A read leaves the state alone.
  abbrev pub reading : {A : Type 0} → (H → Fallible A) → Method H A
  reading read (h, cache) = (read h, (h, cache))

  abbrev pub writing : String → String → Method H (Unit {0})
  writing path v (h, cache) = let (r, h') = sysfs.write_string path v h in (of_sysfs r, (h', cache))

  abbrev pub read_force_level : String → H → Fallible String
  read_force_level base h =
      of_sysfs (sysfs.read_string (force_level_path base) h) >>= (λ level. ok (trim level))

  abbrev pub write_force_level : String → String → Method H (Unit {0})
  write_force_level base = writing (force_level_path base)

  abbrev pub read_od : String → H → Fallible String
  read_od base h = of_sysfs (sysfs.read_string (od_path base) h)

  unfoldable pub read_constraints : String → H → Fallible GpuClockConstraints
  read_constraints base h = read_od base h >>= parse_constraints

  unfoldable pub read_committed_sclk : String → H → Fallible GpuClockRange
  read_committed_sclk base h = read_od base h >>= parse_committed_sclk

  unfoldable pub reset_to_auto : Method H (Unit {0})
  reset_to_auto s =
      then_with (gpu_base s) (λ base s1.
        then_with (writing (od_path base) "r" s1) (λ _. write_force_level base mode_auto))

  abbrev pub force_manual : String → String → Method H (Unit {0})
  force_manual base level s =
      if level == mode_manual then (ok tt, s) else write_force_level base mode_manual s

  abbrev pub check_committed : GpuClockRange → GpuClockRange → Method H (Unit {0})
  check_committed range committed s =
      (if committed == range then ok tt else err (mismatch range committed), s)

  -- The closure in `set_range`.
  unfoldable pub program_range : String → GpuClockRange → Method H (Unit {0})
  program_range base range s = then_with (reading (read_force_level base) s) (λ level s1.
      then_with (force_manual base level s1) (λ _ s2.
        then_with (writing (od_path base) ("s 0 " ++ to_string range.min_mhz) s2) (λ _ s3.
          then_with (writing (od_path base) ("s 1 " ++ to_string range.max_mhz) s3) (λ _ s4.
            then_with (writing (od_path base) "c" s4) (λ _ s5.
              then_with (reading (read_committed_sclk base) s5) (check_committed range))))))

  -- The error is kept, whatever comes of the reset.
  abbrev pub reset_on_error :
      Fallible (Unit {0}) × (H × HwmonCache) → Fallible (Unit {0}) × (H × HwmonCache)
  reset_on_error (ok u, s) = (ok u, s)
  reset_on_error (err e, s) = (err e, (reset_to_auto s).1)

  unfoldable pub set_range : GpuClockRange → Method H (Unit {0})
  set_range range s = then_with (gpu_base s) (λ base s1.
      then_with (reading (read_constraints base) s1) (λ constraints s2.
        then_with (reading (λ h. validate_range range constraints) s2)
          (λ _ s3. reset_on_error (program_range base range s3))))

  abbrev pub active_in_mode : String → String → Method H (Option GpuClockRange)
  active_in_mode base level s =
      if level == mode_auto
      then (ok none, s)
      else reading (λ h. read_committed_sclk base h >>= (λ r. ok (some r))) s

  unfoldable pub active_range : Method H (Option GpuClockRange)
  active_range s =
      then_with (gpu_base s)
        (λ base s1. then_with (reading (read_force_level base) s1) (active_in_mode base))

  unfoldable pub constraints : Method H GpuClockConstraints
  constraints s = then_with (gpu_base s) (λ base. reading (read_constraints base))
