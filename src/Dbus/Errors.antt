-- ===== src/Dbus/Errors.antt =====
-- zbus's `fdo::Error`, as far as hpd-dbus makes it.
use hpd_handheld_power_daemo.Prelude.{ok, err, Result, String, nat_eq, string_eq}

pub data FdoError : Type 0 where
  invalid_args failed auth_failed : String → FdoError

-- `map_err(InvalidArgs)` of `from_str`
abbrev pub of_from_str {ℓ} : {A : Type ℓ} → Result String A → Result FdoError A
of_from_str (ok a) = ok a
of_from_str (err e) = err (invalid_args e)
