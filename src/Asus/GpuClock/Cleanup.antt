-- ===== src/Asus/GpuClock/Cleanup.antt =====
-- What a failed or finished `set_range` of hpd-backend-asus/src/gpu_clock.rs leaves behind.
use hpd_handheld_power_daemo.Prelude.{
  refl, ap, ◌∙◌, true, Bool-cases, inl, inr, ◌≡◌, ◌⊎◌, Option, none, some, ok, err, Result, String,
  ◌==◌, nat_eq, string_eq,
}
use hpd_handheld_power_daemo.Text.{trim, trim_start, trim_end}
use hpd_handheld_power_daemo.Error.{Fallible, HpdError, SysfsError}
use hpd_handheld_power_daemo.Sysfs.{SysfsIo}
use hpd_handheld_power_daemo.Capability.GpuClock.{
  GpuClockRange, GpuClockConstraints, validate_range, range_eq,
}
use hpd_handheld_power_daemo.Asus.Hwmon.{HwmonCache, has_name, cached, resolve_base}
use hpd_handheld_power_daemo.Asus.Hwmon.Lookup.{IsResolved, resolve_base-IsResolved}
use hpd_handheld_power_daemo.Asus.GpuClock.{
  gpu_hwmon_name, mode_auto, mode_manual, force_level_path, od_path, Method, then_with, of_base,
  gpu_base, reading, writing, read_force_level, write_force_level, read_constraints,
  read_committed_sclk, reset_to_auto, force_manual, check_committed, program_range, reset_on_error,
  set_range,
}

-- The attributes of the driver at a path: `auto` is accepted and read back, and a write to an
-- attribute leaves the name of the device alone. Writes of clocks may fail.
pub record IsGpuNode {ℓ} {H : Type ℓ} (sysfs : SysfsIo H) (base : String) : Type ℓ where
  pub auto_accepted : (h : H) → (sysfs.write_string (force_level_path base) mode_auto h).0 ≡ ok tt
  pub auto_read_back :
      (h : H)
      → sysfs.read_string
          (force_level_path base)
          (sysfs.write_string (force_level_path base) mode_auto h).1
        ≡ ok mode_auto
  pub name_after_od :
      (v : String) (h : H)
      → has_name sysfs gpu_hwmon_name base (sysfs.write_string (od_path base) v h).1
        ≡ has_name sysfs gpu_hwmon_name base h
  pub name_after_level :
      (v : String) (h : H)
      → has_name sysfs gpu_hwmon_name base (sysfs.write_string (force_level_path base) v h).1
        ≡ has_name sysfs gpu_hwmon_name base h

module _ {ℓ} {H : Type ℓ} (sysfs : SysfsIo H) (base : String) (node : IsGpuNode sysfs base) where
  -- The path is cached and still names the device.
  abbrev pub IsReady : H × HwmonCache → Type 0
  IsReady (h, cache) =
      (has_name sysfs gpu_hwmon_name base h ≡ true) × (cached gpu_hwmon_name cache ≡ some base)

  -- A method leaves the path cached and the name in place.
  record Keeps {A : Type 0} (x : Fallible A × (H × HwmonCache)) : Type 0 where
    ready : IsReady x.1

  then_with-Keeps :
      {A B : Type 0} (x : Fallible A × (H × HwmonCache)) (next : A → Method H B)
      → IsReady x.1
      → ((a : A) (s : H × HwmonCache) → IsReady s → Keeps (next a s))
      → Keeps (then_with x next)
  unfolding then_with
  then_with-Keeps (ok a, s) next r keeps = keeps a s r
  then_with-Keeps (err e, s) next r keeps = record { ready = r }

  od-IsReady :
      (v : String) (s : H × HwmonCache) → IsReady s → IsReady (writing sysfs (od_path base) v s).1
  od-IsReady v (h, cache) (n, c) = (node.name_after_od v h ∙ n, c)

  level-IsReady :
      (v : String) (s : H × HwmonCache) → IsReady s → IsReady (write_force_level sysfs base v s).1
  level-IsReady v (h, cache) (n, c) = (node.name_after_level v h ∙ n, c)

  manual-IsReady :
      (level : String) (s : H × HwmonCache)
      → IsReady s
      → IsReady (force_manual sysfs base level s).1
  manual-IsReady level s r = elim (Bool-cases (level == mode_manual)) [
    | inl e ↦ rw e r
    | inr e ↦ rw e (level-IsReady mode_manual s r)
  ]

  program_range-Keeps :
      (range : GpuClockRange) (s : H × HwmonCache)
      → IsReady s
      → Keeps (program_range sysfs base range s)
  unfolding program_range
  program_range-Keeps range s r = then_with-Keeps _ _ r (λ level s1 r1.
      then_with-Keeps _ _ (manual-IsReady level s1 r1) (λ _ s2 r2.
        then_with-Keeps _ _ (od-IsReady _ s2 r2) (λ _ s3 r3.
          then_with-Keeps _ _ (od-IsReady _ s3 r3) (λ _ s4 r4.
            then_with-Keeps _ _ (od-IsReady _ s4 r4)
              (λ _ s5 r5. then_with-Keeps _ _ r5 (λ _ s6 r6. record { ready = r6 }))))))

  -- A result that is no error is backed by the range that the driver reports.
  record IsCommitted (range : GpuClockRange) (x : Fallible (Unit {0}) × (H × HwmonCache))
      : Type 0 where
    committed : x.0 ≡ ok tt → read_committed_sclk sysfs base x.1.0 ≡ ok range

  then_with-IsCommitted :
      {A : Type 0} (range : GpuClockRange) (x : Fallible A × (H × HwmonCache))
      (next : A → Method H (Unit {0}))
      → ((a : A) (s : H × HwmonCache) → IsCommitted range (next a s))
      → IsCommitted range (then_with x next)
  unfolding then_with
  then_with-IsCommitted range (ok a, s) next f = f a s
  then_with-IsCommitted range (err e, s) next f = record { committed = λ failed. cc }

  checked_from :
      (range : GpuClockRange) (h : H) (cache : HwmonCache) (r : Fallible GpuClockRange)
      → read_committed_sclk sysfs base h ≡ r
      → IsCommitted range (then_with (r, (h, cache)) (check_committed sysfs range))
  unfolding then_with
  checked_from range h cache (err e) er = record { committed = λ failed. cc }
  checked_from range h cache (ok c) er = elim (Bool-cases (c == range)) [
    | inl same ↦
        rw same (record { committed = λ accepted. er ∙ ap ok ((range_eq.beq_iff c range).0 same) })
    | inr other ↦ rw other (record { committed = λ failed. cc })
  ]

  checked-IsCommitted :
      (range : GpuClockRange) (h : H) (cache : HwmonCache)
      → IsCommitted range (
          then_with
            (reading sysfs (read_committed_sclk sysfs base) (h, cache))
            (check_committed sysfs range))
  checked-IsCommitted range h cache =
      checked_from range h cache (read_committed_sclk sysfs base h) refl

  program_range-IsCommitted :
      (range : GpuClockRange) (s : H × HwmonCache)
      → IsCommitted range (program_range sysfs base range s)
  unfolding program_range
  program_range-IsCommitted range s = then_with-IsCommitted range _ _ (λ level s1.
      then_with-IsCommitted range _ _ (λ _ s2. then_with-IsCommitted range _ _ (λ _ s3.
        then_with-IsCommitted range _ _
          (λ _ s4. then_with-IsCommitted range _ _ (λ _ s5. checked-IsCommitted range s5.0 s5.1)))))

  gpu_base-IsReady : (s : H × HwmonCache) → IsReady s → gpu_base sysfs s ≡ (ok base, s)
  unfolding gpu_base resolve_base
  gpu_base-IsReady (h, cache) (n, c) = rw c (rw n refl)

  -- The driver refuses the reset of the clocks, and h is what that write leaves.
  abbrev pub RefusesReset : H → Type ℓ
  RefusesReset h =
      (before : H) × (e : SysfsError) × (sysfs.write_string (od_path base) "r" before ≡ (err e, h))

  -- The reset of a device whose path is cached ends in `auto`, or its first write is refused.
  abbrev pub IsReset : H → Type ℓ
  IsReset h = (read_force_level sysfs base h ≡ ok mode_auto) ⊎ RefusesReset h

  IsReset-by :
      (h : H) (cache : HwmonCache) (w : Result SysfsError (Unit {0}) × H)
      → IsReady (h, cache)
      → sysfs.write_string (od_path base) "r" h ≡ w
      → IsReset (reset_to_auto sysfs (h, cache)).1.0
  unfolding then_with reset_to_auto trim trim_start trim_end
  IsReset-by h cache (ok u, h') r e =
      rw (gpu_base-IsReady (h, cache) r) (rw e (inl (rw (node.auto_read_back _) refl)))
  IsReset-by h cache (err f, h') r e = rw (gpu_base-IsReady (h, cache) r) (rw e (inr (h, f, e)))

  reset_to_auto-IsReset : (s : H × HwmonCache) → IsReady s → IsReset (reset_to_auto sysfs s).1.0
  reset_to_auto-IsReset (h, cache) r =
      IsReset-by h cache (sysfs.write_string (od_path base) "r" h) r refl

  resolved :
      (h : H) (x : Option String × HwmonCache)
      → IsResolved sysfs gpu_hwmon_name h x
      → of_base sysfs x.0 ≡ ok base
      → IsReady (h, x.1)
  resolved h (none, cache) r found = cc
  resolved h (some b, cache) r found = let same : b ≡ base = cc in rw (← same) r

  gpu_base-found :
      (s : H × HwmonCache)
      → (gpu_base sysfs s).0 ≡ ok base
      → IsReady (gpu_base sysfs s).1 × ((gpu_base sysfs s).1.0 ≡ s.0)
  unfolding gpu_base
  gpu_base-found (h, cache) found =
      (resolved h _ (resolve_base-IsResolved sysfs gpu_hwmon_name h cache) found, refl)

  -- What comes of `set_range` on the file system h.
  abbrev pub Ends : GpuClockRange → H → Fallible (Unit {0}) × (H × HwmonCache) → Type ℓ
  Ends range h x =
      ((x.0 ≡ ok tt) × (read_committed_sclk sysfs base x.1.0 ≡ ok range))
      ⊎ ((e : HpdError) × (x.0 ≡ err e) × ((x.1.0 ≡ h) ⊎ IsReset x.1.0))

  reset_on_error-Ends :
      (range : GpuClockRange) (h : H) (x : Fallible (Unit {0}) × (H × HwmonCache))
      → Keeps x
      → IsCommitted range x
      → Ends range h (reset_on_error sysfs x)
  reset_on_error-Ends range h (ok u, s) k c = inl (refl, c.committed refl)
  reset_on_error-Ends range h (err e, s) k c = inr (e, refl, inr (reset_to_auto-IsReset s k.ready))

  programmed-Ends :
      (range : GpuClockRange) (h : H) (s : H × HwmonCache)
      → IsReady s
      → Ends range h (reset_on_error sysfs (program_range sysfs base range s))
  programmed-Ends range h s r =
      reset_on_error-Ends range h _ (program_range-Keeps range s r)
        (program_range-IsCommitted range s)

  validated-Ends :
      (range : GpuClockRange) (h : H) (s : H × HwmonCache) (v : Fallible (Unit {0}))
      → IsReady s
      → s.0 ≡ h
      → Ends range h
          (then_with (v, s) (λ _ s3. reset_on_error sysfs (program_range sysfs base range s3)))
  unfolding then_with
  validated-Ends range h s (ok u) r e = programmed-Ends range h s r
  validated-Ends range h s (err f) r e = inr (f, refl, inl e)

  bounded-Ends :
      (range : GpuClockRange) (h : H) (s : H × HwmonCache) (c : Fallible GpuClockConstraints)
      → IsReady s
      → s.0 ≡ h
      → Ends range h (
          then_with
            (c, s)
            (λ constraints s2.
              then_with
                (reading sysfs (λ h'. validate_range range constraints) s2)
                (λ _ s3. reset_on_error sysfs (program_range sysfs base range s3))))
  unfolding then_with
  bounded-Ends range h s (ok c) r e = validated-Ends range h s (validate_range range c) r e
  bounded-Ends range h s (err f) r e = inr (f, refl, inl e)

  found-Ends :
      (range : GpuClockRange) (h : H) (b : Fallible String) (s : H × HwmonCache)
      → b ≡ ok base
      → IsReady s
      → s.0 ≡ h
      → Ends range h (
          then_with
            (b, s)
            (λ base' s1.
              then_with (reading sysfs (read_constraints sysfs base') s1) (λ constraints s2.
                then_with
                  (reading sysfs (λ h'. validate_range range constraints) s2)
                  (λ _ s3. reset_on_error sysfs (program_range sysfs base' range s3)))))
  unfolding then_with
  found-Ends range h b s found r e =
      rw found (bounded-Ends range h s (read_constraints sysfs base s.0) r e)

  -- With the device at the path that the lookup gives, where the driver takes `auto` as `IsGpuNode`
  -- says, `set_range` succeeds and the driver reports the range as committed, or it fails, and then
  -- nothing was written, or the device is back in `auto`, or the driver refused the reset of the clocks
  -- too, and nothing was written after that.
  pub set_range-Ends :
      (range : GpuClockRange) (s : H × HwmonCache)
      → (gpu_base sysfs s).0 ≡ ok base
      → Ends range s.0 (set_range sysfs range s)
  unfolding set_range
  set_range-Ends range s found =
      let (ready, same) = gpu_base-found s found in
      found-Ends range s.0 _ (gpu_base sysfs s).1 found ready same
