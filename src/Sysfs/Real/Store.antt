-- ===== src/Sysfs/Real/Store.antt =====
-- `RealSysfs` of hpd-sysfs/src/real.rs over files that keep what is written.
use hpd_handheld_power_daemo.Prelude.{◌≡◌, ap, ok, false, ◌==◌, string_eq, String}
use hpd_handheld_power_daemo.Sysfs.{IsStore}
use hpd_handheld_power_daemo.Sysfs.Real.{FileSystem, real_sysfs, from_io_result, trimmed}

-- The calls of `std::fs` on files that can be written and that nothing else changes.
pub record KeepsFiles {ℓ} {H : Type ℓ} (fs : FileSystem H) : Type ℓ where
  pub written : (p v : String) (h : H) → (fs.write p v h).0 ≡ ok tt
  pub read_back : (p v : String) (h : H) → fs.read_to_string p (fs.write p v h).1 ≡ ok v
  pub others :
      (p q v : String) (h : H)
      → (p == q) ≡ false
      → fs.read_to_string q (fs.write p v h).1 ≡ fs.read_to_string q h

pub real_sysfs-IsStore {ℓ} :
    {H : Type ℓ} (fs : FileSystem H) → KeepsFiles fs → IsStore (real_sysfs fs)
real_sysfs-IsStore fs k = record {
  written = λ p v h. ap (from_io_result p) (k.written p v h);
  read_back = λ p v h. ap (λ r. from_io_result p (trimmed r)) (k.read_back p v h);
  others = λ p q v h n. ap (λ r. from_io_result q (trimmed r)) (k.others p q v h n);
}
