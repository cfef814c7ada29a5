-- ===== src/Capability/Charge.antt =====
-- hpd-capabilities/src/charge.rs: the bounds of the battery charge end threshold, a `u8`.
use hpd_handheld_power_daemo.Prelude.{ℕ}

abbrev pub min_charge_threshold : ℕ
min_charge_threshold = 20

abbrev pub max_charge_threshold : ℕ
max_charge_threshold = 100

abbrev pub default_charge_threshold : ℕ
default_charge_threshold = 80
