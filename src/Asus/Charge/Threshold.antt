-- ===== src/Asus/Charge/Threshold.antt =====
-- Which charge thresholds reach the battery (hpd-backend-asus/src/charge.rs).
use hpd_handheld_power_daemo.Prelude.{
  refl, true, false, ◌||◌, ltb, Bool-cases, inl, inr, ℕ, ◌≡◌, ◌≤◌, ◌<◌, ◌⊎◌, ap, ◌∙◌, ok, err,
  arith,
}
use hpd_handheld_power_daemo.Decimal.{to_string, parse-to_string, trim-to_string}
use hpd_handheld_power_daemo.Error.{HpdError, charge_out_of_range}
use hpd_handheld_power_daemo.Sysfs.{SysfsIo, IsStore, of_sysfs}
use hpd_handheld_power_daemo.Asus.Charge.{
  threshold_path, of_parsed_threshold, get_end_threshold, set_end_threshold,
}

outside : (n : ℕ) → (ltb n 20 || ltb 100 n) ≡ true → (n < 20) ⊎ (100 < n)
outside n h = ground arith

within : (n : ℕ) → (ltb n 20 || ltb 100 n) ≡ false → (20 ≤ n) × (n ≤ 100)
within n h = ground arith

module _ {ℓ} {H : Type ℓ} (sysfs : SysfsIo H) where
  get_end_threshold-to_string :
      (n : ℕ) (h : H)
      → n ≤ 100
      → sysfs.read_string threshold_path h ≡ ok (to_string n)
      → get_end_threshold sysfs h ≡ ok n
  unfolding get_end_threshold
  get_end_threshold-to_string n h small e = rw e (
      ap (λ o. of_parsed_threshold (to_string n) o)
        (parse-to_string 255 n (omega (arith, small)) (omega (arith, small))))

  -- On a file system that keeps what is written, a threshold from 20 to 100 is written and read back
  -- as it is, and any other is refused with nothing written.
  pub get_end_threshold-set_end_threshold :
      (store : IsStore sysfs) (n : ℕ) (h : H)
      → ((20 ≤ n)
          × (n ≤ 100)
          × ((set_end_threshold sysfs n h).0 ≡ ok tt)
          × (get_end_threshold sysfs (set_end_threshold sysfs n h).1 ≡ ok n))
        ⊎ (((n < 20) ⊎ (100 < n))
            × (set_end_threshold sysfs n h
                ≡ (err (HpdError.invariant_violation (charge_out_of_range 20 100 n)), h)))
  unfolding set_end_threshold
  get_end_threshold-set_end_threshold store n h = elim (Bool-cases (ltb n 20 || ltb 100 n)) [
    | inl out ↦ rw out (inr (outside n out, refl))
    | inr inside ↦
        let (lo, hi) = within n inside in
        rw inside (
          inl (
            lo,
            hi,
            ap of_sysfs (store.written threshold_path (to_string n) h),
            get_end_threshold-to_string n _ hi
                (store.read_back threshold_path (to_string n) h ∙ ap ok (trim-to_string n)),
          ))
  ]
