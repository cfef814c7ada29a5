-- ===== src/Asus/Hwmon.antt =====
-- hpd-backend-asus/src/hwmon.rs: the path of a hwmon device, looked up by its `name`.
pub mod Lookup
use Prim.Native.String.{◌++◌}
use hpd_handheld_power_daemo.Prelude.{
  refl, sym, ap, ◌∙◌, true, false, not, ◌&&◌, ◌||◌, ltb, leb, Bool, Bool-cases, inl, inr, ℕ, zero,
  suc, ◌+◌, ◌-◌, ◌*◌, ◌/◌, ◌%◌, ◌^◌, ◌≤◌, ◌<◌, ◌≡◌, ◌⊎◌, ◌↔◌, Option, none, some, ok, err, Result,
  ◌>>=◌, ◌>>◌, arith, String, Equality, ◌==◌, ◌!=◌, nat_eq, string_eq, if◌then◌else◌, All, any, all,
  length, is_empty, List, [], ◌∷◌,
}
use hpd_handheld_power_daemo.Decimal.{to_string}
use hpd_handheld_power_daemo.Text.{trim}
use hpd_handheld_power_daemo.Error.{Fallible, SysfsError}
use hpd_handheld_power_daemo.Sysfs.{SysfsIo, of_sysfs}

abbrev pub hwmon_class_dir : String
hwmon_class_dir = "/sys/class/hwmon"

abbrev pub max_hwmon_index : ℕ
max_hwmon_index = 24

-- `format!("{HWMON_CLASS_DIR}/hwmon{i}")`
abbrev pub hwmon_path : ℕ → String
hwmon_path i = hwmon_class_dir ++ ("/hwmon" ++ to_string i)

-- `format!("{base}/name")`
abbrev pub name_path : String → String
name_path base = base ++ "/name"

abbrev pub is_name : String → Result SysfsError String → Bool
is_name name (ok found) = trim found == name
is_name name (err e) = false

-- `HwmonCache`: the path for each name that has been resolved.
abbrev pub HwmonCache : Type 0
HwmonCache = List (String × String)

unfoldable pub cached : String → HwmonCache → Option String
cached name List.[] = none
cached name (List.◌∷◌ (n, base) rest) =
    let later = cached name rest in if n == name then some base else later

unfoldable pub forget : String → HwmonCache → HwmonCache
forget name List.[] = List.[]
forget name (List.◌∷◌ (n, base) rest) =
    let later = forget name rest in if n == name then later else List.◌∷◌ (n, base) later

module _ {ℓ} {H : Type ℓ} (sysfs : SysfsIo H) where
  -- Whether the device at a path has the name.
  abbrev pub has_name : String → String → H → Bool
  has_name name base h = is_name name (sysfs.read_string (name_path base) h)

  -- The loop of `find_hwmon_by_name`, on `i` and the number of indices from it on.
  unfoldable pub find_from : ℕ → ℕ → String → H → Option String
  find_from zero i name h = none
  find_from (suc left) i name h =
      let later = find_from left (suc i) name h in
      if has_name name (hwmon_path i) h then some (hwmon_path i) else later

  unfoldable pub find_hwmon_by_name : String → H → Option String
  find_hwmon_by_name = find_from max_hwmon_index 0

  -- `self.lock().insert(name, base)` where a device is found.
  abbrev pub remember : String → Option String → HwmonCache → Option String × HwmonCache
  remember name none cache = (none, cache)
  remember name (some base) cache = (some base, List.◌∷◌ (name, base) (forget name cache))

  -- A cached path is confirmed before it is used.
  abbrev pub confirmed : String → Option String → H → HwmonCache → Option String × HwmonCache
  confirmed name none h cache = remember name (find_hwmon_by_name name h) cache
  confirmed name (some base) h cache =
      if has_name name base h
      then (some base, cache)
      else remember name (find_hwmon_by_name name h) (forget name cache)

  -- `HwmonCache::resolve`
  unfoldable pub resolve_base : String → H → HwmonCache → Option String × HwmonCache
  resolve_base name h cache = confirmed name (cached name cache) h cache

  abbrev pub attribute_of :
      String → H → Option String × HwmonCache → Fallible (Option String) × HwmonCache
  attribute_of attr h (none, cache) = (ok none, cache)
  attribute_of attr h (some base, cache) =
      let path = base ++ ("/" ++ attr) in
      (
        if sysfs.exists path h
            then of_sysfs (sysfs.read_string path h) >>= (λ raw. ok (some raw))
            else ok none,
        cache,
      )

  -- `HwmonCache::read_attr`
  unfoldable pub read_attr :
      String → String → H → HwmonCache → Fallible (Option String) × HwmonCache
  read_attr name attr h cache = attribute_of attr h (resolve_base name h cache)
