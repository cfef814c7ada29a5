-- ===== src/Daemon/Config.antt =====
-- hpd-daemon/src/config.rs: the configuration of the daemon. `parse` is the reading of its TOML.
pub mod Sane
use hpd_handheld_power_daemo.Prelude.{
  refl, sym, ap, ◌∙◌, true, false, not, ◌&&◌, ◌||◌, ltb, leb, Bool, Bool-cases, inl, inr, ℕ, zero,
  suc, ◌+◌, ◌-◌, ◌*◌, ◌/◌, ◌%◌, ◌^◌, ◌≤◌, ◌<◌, ◌≡◌, ◌⊎◌, ◌↔◌, Option, none, some, ok, err, Result,
  ◌>>=◌, ◌>>◌, arith, String, Equality, ◌==◌, ◌!=◌, nat_eq, string_eq, if◌then◌else◌, All, any, all,
  length, is_empty, List, [], ◌∷◌, ◌++◌,
}
use hpd_handheld_power_daemo.Capability.Charge.{default_charge_threshold}
use hpd_handheld_power_daemo.Capability.FanCurve.{FanCurvePreset}
use hpd_handheld_power_daemo.Capability.Profile.{
  ProfileName, RuntimeConfig, default_config, sanitized, config_eq,
}
use hpd_handheld_power_daemo.Capability.Profile.Names.{profile_from_str}
use hpd_handheld_power_daemo.Core.Executor.{transition_channel_capacity}

-- The error of `read_to_string`, by the kinds that `load` tells apart.
pub data IoErrorKind : Type 0 where
  not_found other : IoErrorKind

pub record DaemonConfig : Type 0 where
  pub state_path : String
  pub channel_capacity : ℕ
  pub default_charge_threshold : ℕ
  pub default_fan_curve : Option FanCurvePreset
  pub default_platform_profile : ProfileName
  pub default_ac_max_performance : Bool
  pub runtime : RuntimeConfig

unfoldable pub default_daemon_config : DaemonConfig
default_daemon_config = record {
  state_path = "/var/lib/hpd/state.toml";
  channel_capacity = transition_channel_capacity;
  default_charge_threshold = default_charge_threshold;
  default_fan_curve = some FanCurvePreset.balanced;
  default_platform_profile = ProfileName.performance;
  default_ac_max_performance = true;
  runtime = default_config;
}

-- The value of the field `default_platform_profile`.
unfoldable pub de_platform_profile : String → ProfileName
de_platform_profile raw = elim (profile_from_str raw) [ ok p ↦ p | err e ↦ ProfileName.performance ]

abbrev pub or_default_config : Result String DaemonConfig → DaemonConfig
or_default_config (ok cfg) = cfg
or_default_config (err e) = default_daemon_config

-- `cfg` of `load`: a file that is missing, cannot be read or cannot be parsed gives the defaults.
unfoldable pub config_of :
    (String → Result String DaemonConfig) → Result IoErrorKind String → DaemonConfig
config_of parse (ok contents) = or_default_config (parse contents)
config_of parse (err IoErrorKind.not_found) = default_daemon_config
config_of parse (err IoErrorKind.other) = default_daemon_config

abbrev pub with_sanitized : DaemonConfig → DaemonConfig
with_sanitized cfg =
    if not (config_eq (sanitized cfg.runtime) cfg.runtime)
    then record cfg { runtime = sanitized cfg.runtime }
    else cfg

unfoldable pub load :
    (String → Result String DaemonConfig) → Result IoErrorKind String → DaemonConfig
load parse file = with_sanitized (config_of parse file)
