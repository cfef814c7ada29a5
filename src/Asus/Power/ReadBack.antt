-- ===== src/Asus/Power/ReadBack.antt =====
-- Writing and reading the rails (hpd-backend-asus/src/power.rs).
use hpd_handheld_power_daemo.Prelude.{
  ap, ◌*◌, ◌≤◌, ◌≡◌, refl, ◌∙◌, false, ◌==◌, string_eq, String, Option, none, some, ok, arith,
}
use hpd_handheld_power_daemo.Decimal.{to_string, parse-to_string, trim-to_string}
use hpd_handheld_power_daemo.Sysfs.{IsStore, SysfsIo}
use hpd_handheld_power_daemo.Capability.Units.{PowerMilliwatts, from_watts, as_watts, u32_max}
use hpd_handheld_power_daemo.Capability.Power.{PowerEnvelopeTarget}
use hpd_handheld_power_daemo.Asus.Power.{
  of_parsed, attribute_path, attr_spl, attr_sppt, attr_fppt, read_watts, parse_watts, write_watts,
  write_watts_with_settle_retry, get_target, set_target, write_fppt,
}

abbrev pub map_option : {A B : Type 0} → (A → B) → Option A → Option B
map_option f none = none
map_option f (some a) = some (f a)

-- A rail in whole watts.
abbrev pub whole : PowerMilliwatts → PowerMilliwatts
whole mw = as_watts mw * 1000

abbrev pub whole_target : PowerEnvelopeTarget → PowerEnvelopeTarget
whole_target t = record { spl = whole t.spl; sppt = whole t.sppt; fppt = map_option whole t.fppt }

parse_watts-to_string :
    (path : String) (mw : PowerMilliwatts)
    → mw ≤ u32_max
    → parse_watts path (to_string (as_watts mw)) ≡ ok (as_watts mw)
unfolding parse_watts
parse_watts-to_string path mw fits =
    ap (λ o. of_parsed path (to_string (as_watts mw)) o)
      (parse-to_string u32_max (as_watts mw) (omega (arith, fits)) (omega (arith, fits)))

from_watts-as_watts :
    (mw : PowerMilliwatts) → mw ≤ u32_max → from_watts (as_watts mw) ≡ ok (whole mw)
unfolding from_watts
from_watts-as_watts mw fits = ground arith

module _ {ℓ} {H : Type ℓ} (sysfs : SysfsIo H) where
  read_watts-to_string :
      (attr : String) (mw : PowerMilliwatts) (h : H)
      → mw ≤ u32_max
      → sysfs.read_string (attribute_path attr "current_value") h ≡ ok (to_string (as_watts mw))
      → read_watts sysfs attr "current_value" h ≡ ok (whole mw)
  unfolding read_watts
  read_watts-to_string attr mw h fits e = rw e (
      rw (parse_watts-to_string (attribute_path attr "current_value") mw fits)
        (from_watts-as_watts mw fits))

  module _ (store : IsStore sysfs) where
    write_watts-ok :
        (attr : String) (mw : PowerMilliwatts) (h : H)
        → ((write_watts sysfs attr mw h).0 ≡ ok tt)
          × (write_watts_with_settle_retry sysfs attr mw h ≡ write_watts sysfs attr mw h)
          × (sysfs.read_string (attribute_path attr "current_value") (write_watts sysfs attr mw h).1
              ≡ ok (to_string (as_watts mw)))
    unfolding write_watts write_watts_with_settle_retry
    write_watts-ok attr mw h = ground (
      arith,
      store.written (attribute_path attr "current_value") (to_string (as_watts mw)) h,
      store.read_back (attribute_path attr "current_value") (to_string (as_watts mw)) h,
      trim-to_string (as_watts mw),
    )

    write_watts-others :
        (attr other : String) (mw : PowerMilliwatts) (h : H)
        → (attribute_path attr "current_value" == attribute_path other "current_value") ≡ false
        → sysfs.read_string (attribute_path other "current_value") (write_watts sysfs attr mw h).1
          ≡ sysfs.read_string (attribute_path other "current_value") h
    unfolding write_watts
    write_watts-others attr other mw h n = store.others _ _ _ h n

    -- The states of the file system after the three writes.
    after_spl : PowerEnvelopeTarget → H → H
    after_spl t h = (write_watts sysfs attr_spl t.spl h).1

    after_sppt : PowerEnvelopeTarget → H → H
    after_sppt t h = (write_watts sysfs attr_sppt t.sppt (after_spl t h)).1

    set_target-ok :
        (t : PowerEnvelopeTarget) (fppt : PowerMilliwatts) (h : H)
        → t.fppt ≡ some fppt
        → set_target sysfs t h ≡ (ok tt, (write_watts sysfs attr_fppt fppt (after_sppt t h)).1)
    unfolding set_target write_fppt after_spl after_sppt
    set_target-ok t fppt h e =
        let (w1, _, _) = write_watts-ok attr_spl t.spl h in
        let (w2, s2, _) = write_watts-ok attr_sppt t.sppt (after_spl t h) in
        let (w3, s3, _) = write_watts-ok attr_fppt fppt (after_sppt t h) in
        ground (arith, w1, w2, s2, w3, s3, e)

    -- On a file system that keeps what is written, a write of an envelope with an FPPT whose rails
    -- fit in 32 bits succeeds, and reading it back gives the rails rounded down to whole watts.
    pub get_target-set_target :
        (t : PowerEnvelopeTarget) (fppt : PowerMilliwatts) (h : H)
        → t.fppt ≡ some fppt
        → t.spl ≤ u32_max
        → t.sppt ≤ u32_max
        → fppt ≤ u32_max
        → ((set_target sysfs t h).0 ≡ ok tt)
          × (get_target sysfs (set_target sysfs t h).1 ≡ ok (whole_target t))
    unfolding get_target after_spl after_sppt
    get_target-set_target t fppt h e a b c =
        let h1 = after_spl t h in
        let h2 = after_sppt t h in
        let (_, _, r1) = write_watts-ok attr_spl t.spl h in
        let (_, _, r2) = write_watts-ok attr_sppt t.sppt h1 in
        let (_, _, r3) = write_watts-ok attr_fppt fppt h2 in
        let last = (write_watts sysfs attr_fppt fppt h2).1 in
        let spl_read = read_watts-to_string attr_spl t.spl last a (
          write_watts-others attr_fppt attr_spl fppt h2 refl
          ∙ write_watts-others attr_sppt attr_spl t.sppt h1 refl
          ∙ r1) in
        let sppt_read =
          read_watts-to_string attr_sppt t.sppt last b
            (write_watts-others attr_fppt attr_sppt fppt h2 refl ∙ r2) in
        let fppt_read = read_watts-to_string attr_fppt fppt last c r3 in
        rw (set_target-ok t fppt h e) (refl, ground (arith, spl_read, sppt_read, fppt_read, e))
