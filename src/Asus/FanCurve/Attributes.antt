-- ===== src/Asus/FanCurve/Attributes.antt =====
-- What a file system that keeps what is written holds after the attributes of a device are written
-- in a row (hpd-backend-asus/src/fan_curve.rs).
use Prim.Native.String.{◌++◌}
use hpd_handheld_power_daemo.Prelude.{
  append, refl, sym, ap, ◌∙◌, true, false, Bool-cases, inl, inr, ℕ, zero, suc, ◌+◌, ◌≡◌, ok, err,
  Result, arith, String, ◌==◌, nat_eq, string_eq, if◌then◌else◌, List,
}
use text.Mathlib.TextLemmas.{append_cancel_left, append_inj, append_assoc, length-append}
use Prim.Native.String.{count}
use hpd_handheld_power_daemo.Decimal.{to_string, trim-to_string}
use hpd_handheld_power_daemo.Text.{trim}
use hpd_handheld_power_daemo.Error.{SysfsError}
use hpd_handheld_power_daemo.Sysfs.{SysfsIo, IsStore}
use hpd_handheld_power_daemo.Capability.Backend.{Write}
use hpd_handheld_power_daemo.Capability.FanCurve.{FanCurvePoint, FanCurve, points}
use hpd_handheld_power_daemo.Asus.Power.{and_then}
use hpd_handheld_power_daemo.Asus.Hwmon.{hwmon_path, name_path, find_from, find_hwmon_by_name}
use hpd_handheld_power_daemo.Asus.FanCurve.{
  Fallible, of_sysfs, point_attr, enable_attr, write, write_points_from,
}

-- Two texts with different tests are compared by what makes them equal.
eq_by : {s t a b : String} → (s ≡ t → a ≡ b) → (a == b) ≡ false → (s == t) ≡ false
eq_by {s} {t} {a} {b} f e = elim (Bool-cases (s == t)) [
  | inl h ↦
      let same : (a == b) ≡ true = (string_eq.beq_iff a b).1 (f ((string_eq.beq_iff s t).0 h)) in cc
  | inr h ↦ h
]

eq_append : (base a b : String) → (a == b) ≡ false → ((base ++ a) == (base ++ b)) ≡ false
eq_append base a b = eq_by (append_cancel_left base a b)

same_length : (s t a b : String) → s ++ a ≡ t ++ b → count a ≡ count b → count s ≡ count t
same_length s t a b e n =
    let m : count s + count a ≡ count t + count b =
      sym (length-append s a) ∙ ap count e ∙ length-append t b in
    omega (arith, m, n)

-- Texts with different ends of the same length differ.
ends_differ :
    (s t a b : String) → count a ≡ count b → (a == b) ≡ false → ((s ++ a) == (t ++ b)) ≡ false
ends_differ s t a b n = eq_by (λ e. (append_inj e (same_length s t a b e n)).1)

-- The attribute is none of the `name` of a device, whatever the base of either.
abbrev IsNoName : String → Type 0
IsNoName a = (base other : String) → ((base ++ a) == name_path other) ≡ false

IsNoName-end : (s a : String) → count a ≡ 4 → (a == "name") ≡ false → IsNoName (s ++ a)
IsNoName-end s a n e base other =
    let split : name_path other ≡ (other ++ "/") ++ "name" = sym (append_assoc other "/" "name") in
    rw (sym (append_assoc base s a), split) (ends_differ (base ++ s) (other ++ "/") a "name" n e)

IsNoName-by : (a b : String) → a ≡ b → IsNoName a → IsNoName b
IsNoName-by a b e h = rw (← e) h

temp-IsNoName : (fan point : ℕ) → IsNoName (point_attr fan point "temp")
temp-IsNoName fan point = IsNoName-by _ _ (simp (append_assoc)) (
    IsNoName-end ("/pwm" ++ (to_string fan ++ ("_auto_point" ++ (to_string point ++ "_")))) "temp"
      refl refl)

pwm-IsNoName : (fan point : ℕ) → IsNoName (point_attr fan point "pwm")
pwm-IsNoName fan point = IsNoName-by _ _ (simp (append_assoc)) (
    IsNoName-end ("/pwm" ++ (to_string fan ++ ("_auto_point" ++ to_string point))) "_pwm" refl refl)

pub enable-IsNoName : (fan : ℕ) → IsNoName (enable_attr fan)
enable-IsNoName fan =
    IsNoName-by _ _ (simp (append_assoc))
      (IsNoName-end ("/pwm" ++ (to_string fan ++ "_en")) "able" refl refl)

-- What a read of the attribute a gives after the writes, where it gave r before them.
abbrev pub after :
    String → List (String × String) → Result SysfsError String → Result SysfsError String
after a List.[] r = r
after a (List.◌∷◌ (b, v) ws) r = after a ws (if b == a then ok v else r)

-- The attributes of the points, behind i of them.
abbrev pub point_writes : ℕ → ℕ → List FanCurvePoint → List (String × String)
point_writes fan i List.[] = List.[]
point_writes fan i (List.◌∷◌ p ps) =
    List.◌∷◌ (point_attr fan (i + 1) "temp", to_string p.temp_c)
      (List.◌∷◌ (point_attr fan (i + 1) "pwm", to_string p.pwm) (point_writes fan (i + 1) ps))

-- The attributes that `apply` writes, in order.
abbrev pub applied_writes : FanCurve → FanCurve → List (String × String)
applied_writes cpu gpu =
    append
      (append (append (point_writes 1 0 (points cpu)) (point_writes 2 0 (points gpu)))
        (List.◌∷◌ (enable_attr 1, "1") List.[]))
      (List.◌∷◌ (enable_attr 2, "1") List.[])

module _ {ℓ} {H : Type ℓ} (sysfs : SysfsIo H) (store : IsStore sysfs) (base : String) where
  -- A run of writes succeeds, and reads afterwards are what the attributes written tell.
  pub record Leaves (ws : List (String × String)) (h : H) (x : Fallible (Unit {0}) × H)
      : Type 0 where
    pub succeeds : x.0 ≡ ok tt
    pub reads :
        (a : String)
        → sysfs.read_string (base ++ a) x.1 ≡ after a ws (sysfs.read_string (base ++ a) h)
    pub names :
        (other : String)
        → sysfs.read_string (name_path other) x.1 ≡ sysfs.read_string (name_path other) h

  pub write-Leaves :
      (a v : String) (h : H)
      → IsNoName a
      → trim v ≡ v
      → Leaves (List.◌∷◌ (a, v) List.[]) h (write sysfs (base ++ a) v h)
  write-Leaves a v h n plain = record {
    succeeds = ap of_sysfs (store.written (base ++ a) v h);
    reads = λ b. elim (Bool-cases (a == b)) [
      | inl e ↦
          let p = (string_eq.beq_iff a b).0 e in
          rw (e, ← p) (store.read_back (base ++ a) v h ∙ ap ok plain)
      | inr e ↦ rw e (store.others _ _ v h (eq_append base a b e))
    ];
    names = λ other. store.others _ _ v h (n base other);
  }

  after-append :
      (a : String) (ws vs : List (String × String)) (r : Result SysfsError String)
      → after a vs (after a ws r) ≡ after a (append ws vs) r
  after-append a List.[] vs r = refl
  after-append a (List.◌∷◌ (b, v) ws) vs r = after-append a ws vs _

  pub and_then-Leaves :
      (ws vs : List (String × String)) (h : H) (x : Fallible (Unit {0}) × H) (next : Write H)
      → Leaves ws h x
      → Leaves vs x.1 (next x.1)
      → Leaves (append ws vs) h (and_then x next)
  and_then-Leaves ws vs h (ok u, h1) next l m = record {
    succeeds = m.succeeds;
    reads = λ a. m.reads a ∙ ap (after a vs) (l.reads a) ∙ after-append a ws vs _;
    names = λ other. m.names other ∙ l.names other;
  }
  and_then-Leaves ws vs h (err e, h1) next l m = let failed = l.succeeds in cc

  pub write_points_from-Leaves :
      (fan i : ℕ) (ps : List FanCurvePoint) (h : H)
      → Leaves (point_writes fan i ps) h (write_points_from sysfs base fan i ps h)
  unfolding write_points_from
  write_points_from-Leaves fan i List.[] h = record {
    succeeds = refl;
    reads = λ a. refl;
    names = λ other. refl;
  }
  write_points_from-Leaves fan i (List.◌∷◌ p ps) h =
      let first =
        write-Leaves (point_attr fan (i + 1) "temp") (to_string p.temp_c) h
          (temp-IsNoName fan (i + 1)) (trim-to_string p.temp_c) in
      let second =
        write-Leaves (point_attr fan (i + 1) "pwm") (to_string p.pwm) _ (pwm-IsNoName fan (i + 1))
          (trim-to_string p.pwm) in
      and_then-Leaves _ _ h _ _ (and_then-Leaves _ _ h _ _ first second)
        (write_points_from-Leaves fan (i + 1) ps _)

  -- The lookup of a device sees none of the writes.
  find_from-Leaves :
      (ws : List (String × String)) (h : H) (x : Fallible (Unit {0}) × H)
      → Leaves ws h x
      → (left i : ℕ) (name : String)
      → find_from sysfs left i name x.1 ≡ find_from sysfs left i name h
  unfolding find_from
  find_from-Leaves ws h x l zero i name = refl
  find_from-Leaves ws h x l (suc left) i name =
      rw (l.names (hwmon_path i), find_from-Leaves ws h x l left (suc i) name) refl

  pub find_hwmon_by_name-Leaves :
      (ws : List (String × String)) (h : H) (x : Fallible (Unit {0}) × H)
      → Leaves ws h x
      → (name : String) → find_hwmon_by_name sysfs name x.1 ≡ find_hwmon_by_name sysfs name h
  unfolding find_hwmon_by_name
  find_hwmon_by_name-Leaves ws h x l name = find_from-Leaves ws h x l 24 0 name
