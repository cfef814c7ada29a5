-- ===== src/Sysfs.antt =====
-- hpd-sysfs/src/io.rs: the trait `SysfsIo`, over a state `H` of the file system.
pub mod Real
use hpd_handheld_power_daemo.Prelude.{
  string_eq, false, err, ◌==◌, ok, ◌≡◌, Bool, String, List, Result,
}
use hpd_handheld_power_daemo.Text.{trim}
use hpd_handheld_power_daemo.Error.{HpdError, Fallible, SysfsError}

pub record SysfsIo {ℓ} (H : Type ℓ) : Type ℓ where
  pub read_string : String → H → Result SysfsError String
  pub write_string : String → String → H → Result SysfsError (Unit {0}) × H
  pub exists : String → H → Bool
  pub read_dir_names : String → H → List String

-- The conversion of an error of sysfs that `?` makes.
abbrev pub of_sysfs : {A : Type 0} → Result SysfsError A → Fallible A
of_sysfs (ok a) = ok a
of_sysfs (err e) = err (HpdError.sysfs e)

-- A file system that keeps what is written to a file, which `read_string` gives without the blanks at
-- its ends, and leaves the others alone.
pub record IsStore {ℓ} {H : Type ℓ} (sysfs : SysfsIo H) : Type ℓ where
  pub written : (p v : String) (h : H) → (sysfs.write_string p v h).0 ≡ ok tt
  pub read_back :
      (p v : String) (h : H) → sysfs.read_string p (sysfs.write_string p v h).1 ≡ ok (trim v)
  pub others :
      (p q v : String) (h : H)
      → (p == q) ≡ false
      → sysfs.read_string q (sysfs.write_string p v h).1 ≡ sysfs.read_string q h
