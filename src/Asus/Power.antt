-- ===== src/Asus/Power.antt =====
-- hpd-backend-asus/src/power.rs: the rails of the power envelope as attributes of `asus-armoury`, in
-- whole watts.
pub mod ReadBack
use Prim.Native.String.{◌++◌}
use hpd_handheld_power_daemo.Prelude.{
  Result, ℕ, ◌*◌, ◌/◌, ◌≡◌, String, Option, none, some, ok, err, ◌>>=◌,
}
use hpd_handheld_power_daemo.Decimal.{to_string, parse}
use hpd_handheld_power_daemo.Error.{Fallible, SysfsError, HpdError, BackendError}
use hpd_handheld_power_daemo.Sysfs.{of_sysfs, SysfsIo}
use hpd_handheld_power_daemo.Capability.Units.{PowerMilliwatts, from_watts, as_watts, u32_max}
use hpd_handheld_power_daemo.Capability.Power.{PowerEnvelopeLimits, PowerEnvelopeTarget}
use hpd_handheld_power_daemo.Capability.Backend.{PowerEnvelope}

abbrev pub base_path : String
base_path = "/sys/class/firmware-attributes/asus-armoury/attributes"

abbrev pub attr_spl : String
attr_spl = "ppt_pl1_spl"

abbrev pub attr_sppt : String
attr_sppt = "ppt_pl2_sppt"

abbrev pub attr_fppt : String
attr_fppt = "ppt_pl3_fppt"

abbrev pub asus_default_sppt_max_mw : PowerMilliwatts
asus_default_sppt_max_mw = 43000

abbrev pub asus_default_fppt_max_mw : PowerMilliwatts
asus_default_fppt_max_mw = 53000

abbrev pub asus_default_sppt_min_mw : PowerMilliwatts
asus_default_sppt_min_mw = 13000

abbrev pub asus_default_fppt_min_mw : PowerMilliwatts
asus_default_fppt_min_mw = 19000

-- `format!("{}/{}/{}", BASE_PATH, attr, suffix)`
abbrev pub attribute_path : String → String → String
attribute_path attr suffix = base_path ++ ("/" ++ (attr ++ ("/" ++ suffix)))

-- `map_err` of `parse`, with the field "watts".
abbrev pub of_parsed : String → String → Option ℕ → Fallible ℕ
of_parsed path raw (some watts) = ok watts
of_parsed path raw none =
    err (HpdError.backend (BackendError.parse_failed "watts" raw ("expected integer at " ++ path)))

unfoldable pub parse_watts : String → String → Fallible ℕ
parse_watts path raw = of_parsed path raw (parse u32_max raw)

-- `unwrap_or`
abbrev pub unwrap_or : {A : Type 0} → Fallible A → A → A
unwrap_or (ok a) default = a
unwrap_or (err e) default = default

-- A second write where the first has succeeded.
abbrev pub and_then {ℓ} :
    {H : Type ℓ} → Fallible (Unit {0}) × H → (H → Fallible (Unit {0}) × H) → Fallible (Unit {0}) × H
and_then (ok _, h) next = next h
and_then (err e, h) next = (err e, h)

-- A second write where the first has failed.
abbrev pub or_retry {ℓ} :
    {H : Type ℓ} → Fallible (Unit {0}) × H → (H → Fallible (Unit {0}) × H) → Fallible (Unit {0}) × H
or_retry (ok u, h) again = (ok u, h)
or_retry (err e, h) again = again h

module _ {ℓ} {H : Type ℓ} (sysfs : SysfsIo H) where
  unfoldable pub read_watts : String → String → H → Fallible PowerMilliwatts
  read_watts attr suffix h = do
    raw ← of_sysfs (sysfs.read_string (attribute_path attr suffix) h)
    watts ← parse_watts (attribute_path attr suffix) raw
    from_watts watts

  unfoldable pub write_watts : String → PowerMilliwatts → H → Fallible (Unit {0}) × H
  write_watts attr target_mw h =
      let (r, h') =
        sysfs.write_string (attribute_path attr "current_value") (to_string (as_watts target_mw))
          h in
      (of_sysfs r, h')

  -- The delay before the second try is not modelled.
  unfoldable pub write_watts_with_settle_retry :
      String → PowerMilliwatts → H → Fallible (Unit {0}) × H
  write_watts_with_settle_retry attr target_mw h =
      or_retry (write_watts attr target_mw h) (write_watts attr target_mw)

  unfoldable pub get_limits : H → Fallible PowerEnvelopeLimits
  get_limits h = do
    spl_min ← read_watts attr_spl "min_value" h
    spl_max ← read_watts attr_spl "max_value" h
    ok (record {
      spl_min = spl_min;
      spl_max = spl_max;
      sppt_min = unwrap_or (read_watts attr_sppt "min_value" h) asus_default_sppt_min_mw;
      sppt_max = unwrap_or (read_watts attr_sppt "max_value" h) asus_default_sppt_max_mw;
      fppt_min = unwrap_or (read_watts attr_fppt "min_value" h) asus_default_fppt_min_mw;
      fppt_max = unwrap_or (read_watts attr_fppt "max_value" h) asus_default_fppt_max_mw;
    })

  unfoldable pub get_target : H → Fallible PowerEnvelopeTarget
  get_target h = do
    spl ← read_watts attr_spl "current_value" h
    sppt ← read_watts attr_sppt "current_value" h
    fppt ← read_watts attr_fppt "current_value" h
    ok (record { spl = spl; sppt = sppt; fppt = some fppt })

  -- The last write is made only where the target has an FPPT.
  unfoldable pub write_fppt : Option PowerMilliwatts → H → Fallible (Unit {0}) × H
  write_fppt none h = (ok tt, h)
  write_fppt (some fppt) h = write_watts_with_settle_retry attr_fppt fppt h

  unfoldable pub set_target : PowerEnvelopeTarget → H → Fallible (Unit {0}) × H
  set_target target h = and_then (write_watts attr_spl target.spl h) (λ h'.
      and_then (write_watts_with_settle_retry attr_sppt target.sppt h') (write_fppt target.fppt))

  abbrev pub asus_power : PowerEnvelope H
  asus_power = record { get_limits = get_limits; get_target = get_target; set_target = set_target }
