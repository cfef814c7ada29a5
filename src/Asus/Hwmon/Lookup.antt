-- ===== src/Asus/Hwmon/Lookup.antt =====
-- Which device a lookup in hpd-backend-asus/src/hwmon.rs finds.
use hpd_handheld_power_daemo.Prelude.{
  refl, true, false, ltb, Bool-cases, inl, inr, ℕ, zero, suc, ◌+◌, ◌≤◌, ◌<◌, ◌≡◌, Option, none,
  some, arith, String, ◌==◌, nat_eq, string_eq, List,
}
use hpd_handheld_power_daemo.Sysfs.{SysfsIo}
use hpd_handheld_power_daemo.Asus.Hwmon.{
  HwmonCache, hwmon_path, has_name, cached, forget, find_from, find_hwmon_by_name, remember,
  confirmed, resolve_base,
}

module _ {ℓ} {H : Type ℓ} (sysfs : SysfsIo H) (name : String) (h : H) where
  -- The device at index i has the name, and no device before it, from `first` on.
  abbrev pub IsFirst : ℕ → ℕ → Type 0
  IsFirst first i =
      (has_name sysfs name (hwmon_path i) h ≡ true)
      × ((j : ℕ) → first ≤ j → j < i → has_name sysfs name (hwmon_path j) h ≡ false)

  -- The answer of a lookup from `first` to before `end`.
  abbrev pub Finds : ℕ → ℕ → Option String → Type 0
  Finds first end none =
      (j : ℕ) → first ≤ j → j < end → has_name sysfs name (hwmon_path j) h ≡ false
  Finds first end (some base) = (i : ℕ) × (i < end) × (base ≡ hwmon_path i) × IsFirst first i

  not_named_from :
      (first j : ℕ)
      → has_name sysfs name (hwmon_path first) h ≡ false
      → first ≤ j
      → (suc first ≤ j → has_name sysfs name (hwmon_path j) h ≡ false)
      → has_name sysfs name (hwmon_path j) h ≡ false
  not_named_from first j e a later = elim (Bool-cases (ltb first j)) [
    | inl b ↦ later (ground arith)
    | inr c ↦ let same : first ≡ j = ground arith in rw (← same) e
  ]

  Finds-skip :
      (first end : ℕ) (o : Option String)
      → has_name sysfs name (hwmon_path first) h ≡ false
      → Finds (suc first) end o
      → Finds first end o
  Finds-skip first end none e f = λ j a b. not_named_from first j e a (λ c. f j c b)
  Finds-skip first end (some base) e (i, b, p, (named, before)) =
      (i, b, p, (named, λ j a c. not_named_from first j e a (λ d. before j d c)))

  Finds-end : (first m n : ℕ) (o : Option String) → m ≡ n → Finds first m o → Finds first n o
  Finds-end first m n o e f = rw (← e) f

  find_from-Finds :
      (left first : ℕ) → Finds first (left + first) (find_from sysfs left first name h)
  unfolding find_from
  find_from-Finds zero first = λ j a b. ground arith
  find_from-Finds (suc left) first = elim (Bool-cases (has_name sysfs name (hwmon_path first) h)) [
    | inl e ↦ rw e (first, omega arith, refl, (e, λ j a b. ground arith))
    | inr e ↦ rw e (
        Finds-skip first _ _ e (Finds-end _ _ _ _ (omega arith) (find_from-Finds left (suc first))))
  ]

  -- The lookup finds the device of the least index below 24 that has the name, and nothing just where
  -- none of them has it.
  pub find_hwmon_by_name-Finds : Finds 0 24 (find_hwmon_by_name sysfs name h)
  unfolding find_hwmon_by_name
  find_hwmon_by_name-Finds = find_from-Finds 24 0

  -- What a lookup through the cache comes to: a device that has the name, or nothing where no device
  -- has it; and what is cached for the name afterwards is the answer.
  abbrev pub IsResolved : Option String × HwmonCache → Type 0
  IsResolved (some base, cache) =
      (has_name sysfs name base h ≡ true) × (cached name cache ≡ some base)
  IsResolved (none, cache) =
      ((j : ℕ) → j < 24 → has_name sysfs name (hwmon_path j) h ≡ false) × (cached name cache ≡ none)

  cached-forget : (cache : HwmonCache) → cached name (forget name cache) ≡ none
  unfolding cached forget
  cached-forget List.[] = refl
  cached-forget (List.◌∷◌ (n, base) rest) = elim (Bool-cases (n == name)) [
    | inl e ↦ rw e (cached-forget rest)
    | inr e ↦ rw e (rw e (cached-forget rest))
  ]

  remember-IsResolved :
      (o : Option String) (cache : HwmonCache)
      → Finds 0 24 o
      → cached name cache ≡ none
      → IsResolved (remember sysfs name o cache)
  unfolding cached
  remember-IsResolved none cache f c = (λ j b. f j (omega arith) b, c)
  remember-IsResolved (some base) cache (i, b, p, (named, before)) c =
      (rw p named, rw ((string_eq.beq_iff name name).1 refl) refl)

  confirmed-IsResolved :
      (o : Option String) (cache : HwmonCache)
      → cached name cache ≡ o
      → IsResolved (confirmed sysfs name o h cache)
  confirmed-IsResolved none cache c = remember-IsResolved _ cache find_hwmon_by_name-Finds c
  confirmed-IsResolved (some base) cache c = elim (Bool-cases (has_name sysfs name base h)) [
    | inl e ↦ rw e (e, c)
    | inr e ↦
        rw e
          (remember-IsResolved _ (forget name cache) find_hwmon_by_name-Finds (cached-forget cache))
  ]

  -- A lookup through the cache, whatever was cached, gives a device that has the name now and leaves it
  -- in the cache; where it gives nothing, no device of an index below 24 has the name, and nothing is
  -- cached for it.
  pub resolve_base-IsResolved : (cache : HwmonCache) → IsResolved (resolve_base sysfs name h cache)
  unfolding resolve_base
  resolve_base-IsResolved cache = confirmed-IsResolved (cached name cache) cache refl
