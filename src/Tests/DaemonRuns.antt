-- ===== src/Tests/DaemonRuns.antt =====
-- Starts of the daemon (hpd-daemon/src) with files of configuration that are right and wrong.
use hpd_handheld_power_daemo.Daemon.Boot.FirstState.{IsFirstCurve, IsFirstThreshold}
use hpd_handheld_power_daemo.Core.Executor
use hpd_handheld_power_daemo.Core.Executor.{handle_effects}
use hpd_handheld_power_daemo.Prelude.{
  ◌⊎◌, ℕ, [], false, ◌∷◌, List, refl, true, inl, ◌≡◌, none, some, ok, Result, String, nat_eq,
  string_eq,
}
use hpd_handheld_power_daemo.Float.{F32, literal}
use hpd_handheld_power_daemo.Capability.SanitizedConfig.{IsSane, sanitized-IsSane}
use hpd_handheld_power_daemo.Capability.Profile.{
  ProfileName, RuntimeConfig, default_config, sanitized,
}
use hpd_handheld_power_daemo.Capability.Backend.{HwBackend}
use hpd_handheld_power_daemo.Core.State.{ProfileState}
use hpd_handheld_power_daemo.Core.EmbeddedController.{Controller, run, described}
use hpd_handheld_power_daemo.Core.Reducer.{aggressive_curve}
use hpd_handheld_power_daemo.Daemon.Config.{
  DaemonConfig, default_daemon_config, load, de_platform_profile,
}
use hpd_handheld_power_daemo.Daemon.Config.Sane.{load-IsSane, load-sane}
use hpd_handheld_power_daemo.Daemon.Boot.{
  start_by, start_with, first_state, is_physically_plugged, start, started, panicked, initial_state,
  first_executor, known_state, first_threshold,
}
use hpd_handheld_power_daemo.Daemon.Boot.Reasserted.{is_locked, start-first_output, first_output}
use hpd_handheld_power_daemo.Daemon.Suspend.{
  LogindSession, Received, SleepSignal, spawn_suspend_monitor,
}
use hpd_handheld_power_daemo.Daemon.Suspend.Wakes.{spawn_suspend_monitor-resumes, resumes, streams}
use hpd_handheld_power_daemo.Dbus.Service.Properties.{properties_of}
use hpd_handheld_power_daemo.Daemon.Emitter.{watch, emit}
use hpd_handheld_power_daemo.Daemon.Emitter.UpToDate.{watch-properties_of, rounds_of}
use hpd_handheld_power_daemo.Capability.Profile.{profile_beq}
use hpd_handheld_power_daemo.Text.{trim, trim_end, trim_start}
use hpd_handheld_power_daemo.Capability.Profile.Names.{profile_from_str}
use hpd_handheld_power_daemo.Tests.Data.{limits, on_battery, target_15w}

-- A typing error and a number that is none.
abbrev typo : RuntimeConfig
typo = record default_config { sppt_factor = literal 115 1000; efficiency_frac = F32.nan }

-- A parser that reads every text as `cfg`.
abbrev reads_as : DaemonConfig → String → Result String DaemonConfig
reads_as cfg text = ok cfg

abbrev with_typo : DaemonConfig
with_typo = record default_daemon_config { runtime = typo }

load-IsSane_example : IsSane (load (reads_as with_typo) (ok "sppt_factor = 0.115")).runtime
load-IsSane_example = load-IsSane (reads_as with_typo) (ok "sppt_factor = 0.115")

abbrev as_sanitized : DaemonConfig
as_sanitized = record default_daemon_config { runtime = sanitized typo }

load-sane_example : load (reads_as as_sanitized) (ok "sppt_factor = 1.15") ≡ as_sanitized
load-sane_example =
    load-sane (reads_as as_sanitized) "sppt_factor = 1.15" as_sanitized refl (sanitized-IsSane typo)

-- A typing error in the profile is no error.
profile_typo : de_platform_profile "  " ≡ ProfileName.performance
unfolding de_platform_profile profile_from_str trim trim_end trim_start
profile_typo = refl

-- A plugged device whose charge control has not settled: its threshold reads as 0.
abbrev unsettled : HwBackend Controller
unsettled = record {
  power = record {
    get_limits = λ _. ok limits;
    get_target = λ _. ok target_15w;
    set_target = λ t c. (ok tt, c);
  };
  charge = some (record {
    is_ac_connected = λ _. ok true;
    set_end_threshold = λ n c. (ok tt, c);
    get_end_threshold = λ _. ok 0;
  });
  profile = none;
  fan_curve = none;
  gpu_clock = none;
}

abbrev no_file : ProfileState → Controller → Controller
no_file _ c = c

abbrev cold : Controller
cold = record (described on_battery) { envelope = none; curve = none }

unsettled_threshold : first_threshold unsettled cold default_daemon_config ≡ 80
unfolding first_threshold default_daemon_config
unsettled_threshold = refl

abbrev no_room : DaemonConfig
no_room = record default_daemon_config { channel_capacity = 0 }

-- The channel of a configuration that the parser takes.
capacity_of_zero : start unsettled cold no_room none ≡ panicked
unfolding start_by start_with
capacity_of_zero = refl

-- A first start while plugged.
abbrev first_run : DaemonConfig
first_run = record default_daemon_config {
  channel_capacity = 32;
  default_ac_max_performance = true;
}

start-first_output_example :
    let x = first_executor unsettled cold limits first_run none in
    let o = first_output unsettled no_file cold limits first_run none in
    let published = record o.new_state { ac_locked = is_locked o.new_state } in
    (start unsettled cold first_run none ≡ started x)
    × (Executor.run unsettled no_file 1 x ≡ (
      true,
      handle_effects unsettled no_file o.effects (record x { queue = []; state = published }),
    ))
    × (run cold o.effects ≡ described published)
    × (((is_locked published ≡ true)
          × (published.active_profile ≡ ProfileName.performance)
          × (published.active_fan_curve ≡ some aggressive_curve))
        ⊎ ((is_locked published ≡ false)
            × (published.active_profile ≡ first_run.default_platform_profile)
            × IsFirstCurve unsettled cold limits first_run none published.active_fan_curve))
    × IsFirstThreshold unsettled cold limits first_run none published.charge_end_threshold
unfolding initial_state known_state first_state is_physically_plugged
start-first_output_example =
    start-first_output unsettled no_file cold limits first_run none refl refl (inl refl) cold
      (λ _. unfold described in refl)

abbrev received : SleepSignal → Received
received s = record { signal = s; is_open = true }

-- A night, a connection that fails, and a second wake-up after a signal that cannot be decoded.
abbrev sessions : List LogindSession
sessions =
    record {
      connected = true;
      proxied = true;
      subscribed = true;
      stream =
          received (SleepSignal.prepare_for_sleep true)
          ∷ received (SleepSignal.prepare_for_sleep false)
          ∷ [];
    }
    ∷ record { connected = false; proxied = true; subscribed = true; stream = [] }
    ∷ record {
      connected = true;
      proxied = true;
      subscribed = true;
      stream =
          received SleepSignal.undecodable ∷ received (SleepSignal.prepare_for_sleep false) ∷ [];
    }
    ∷ []

spawn_suspend_monitor-resumes_example : spawn_suspend_monitor sessions ≡ resumes (streams sessions)
spawn_suspend_monitor-resumes_example =
    spawn_suspend_monitor-resumes sessions (unfold streams in (refl, (refl, (refl, (refl, tt)))))

abbrev with_threshold : ℕ → ProfileState
with_threshold n = record on_battery { charge_end_threshold = n }

abbrev published : List ProfileState
published = with_threshold 60 ∷ with_threshold 70 ∷ with_threshold 60 ∷ []

watch-properties_of_example :
    watch (with_threshold 80) (rounds_of published) (properties_of (with_threshold 80))
    ≡ properties_of (with_threshold 60)
watch-properties_of_example = watch-properties_of published (with_threshold 80)

-- 70 is published after the round for 60 began and before its signal; the next round is for 60 again
-- and signals nothing, so the client stays at 70.
late_signal :
    (watch
      (with_threshold 80)
      (record { new = with_threshold 60; current = with_threshold 70 }
        ∷ record { new = with_threshold 60; current = with_threshold 60 }
        ∷ [])
      (properties_of (with_threshold 80))).charge_end_threshold
    ≡ 70
unfolding watch emit profile_beq
late_signal = refl
