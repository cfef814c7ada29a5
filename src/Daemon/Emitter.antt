-- ===== src/Daemon/Emitter.antt =====
-- `spawn_properties_changed_emitter` of hpd-daemon/src/main.rs, with a client that keeps the
-- properties that it was told. A signal carries what the getter answers when it is sent.
pub mod UpToDate
use hpd_handheld_power_daemo.Prelude.{
  option_eq, bool_eq, refl, sym, ap, ◌∙◌, true, false, not, ◌&&◌, ◌||◌, ltb, leb, Bool, Bool-cases,
  inl, inr, ℕ, zero, suc, ◌+◌, ◌-◌, ◌*◌, ◌/◌, ◌%◌, ◌^◌, ◌≤◌, ◌<◌, ◌≡◌, ◌⊎◌, ◌↔◌, Option, none, some,
  ok, err, Result, ◌>>=◌, ◌>>◌, arith, String, Equality, ◌==◌, ◌!=◌, nat_eq, string_eq,
  if◌then◌else◌, All, any, all, length, is_empty, List, [], ◌∷◌, ◌++◌,
}
use hpd_handheld_power_daemo.Capability.Power.{target_eq}
use hpd_handheld_power_daemo.Capability.Profile.{profile_eq}
use hpd_handheld_power_daemo.Capability.FanCurve.{selection_eq}
use hpd_handheld_power_daemo.Capability.GpuClock.{clock_eq}
use hpd_handheld_power_daemo.Core.State.{ProfileState}
use hpd_handheld_power_daemo.Dbus.Service.Properties.{Properties, properties_of}

-- A client takes over one property of those that the getters answer.
abbrev pub Update : Type 0
Update = Properties → Properties → Properties

-- The signals of one round, each with the test that it stands under.
abbrev pub changes : ProfileState → ProfileState → List (Bool × Update)
changes last new =
    (
      new.power_target.spl != last.power_target.spl,
      λ seen c. record c { current_spl = seen.current_spl },
    )
    ∷ (
      new.active_profile != last.active_profile,
      λ seen c. record c { active_profile = seen.active_profile },
    )
    ∷ (
      new.charge_end_threshold != last.charge_end_threshold,
      λ seen c. record c { charge_end_threshold = seen.charge_end_threshold },
    )
    ∷ (
      new.fan_follows_tdp != last.fan_follows_tdp,
      λ seen c. record c { auto_cooling = seen.auto_cooling },
    )
    ∷ (
      new.active_fan_curve != last.active_fan_curve,
      λ seen c. record c { fan_curve = seen.fan_curve },
    )
    ∷ (
      new.active_gpu_clock != last.active_gpu_clock,
      λ seen c. record c { gpu_clock_range = seen.gpu_clock_range },
    )
    ∷ (
      new.gpu_follows_tdp != last.gpu_follows_tdp,
      λ seen c. record c { gpu_follows_tdp = seen.gpu_follows_tdp },
    )
    ∷ (
      new.is_ac_connected != last.is_ac_connected,
      λ seen c. record c { ac_connected = seen.ac_connected },
    )
    ∷ (new.ac_locked != last.ac_locked, λ seen c. record c { ac_locked = seen.ac_locked })
    ∷ (
      new.ac_max_performance != last.ac_max_performance,
      λ seen c. record c { ac_max_performance = seen.ac_max_performance },
    )
    ∷ []

-- The signals are sent in order, and the client takes each.
unfoldable pub emit : List (Bool × Update) → Properties → Properties → Properties
emit [] seen c = c
emit ((b, update) ∷ rest) seen c = emit rest seen (if b then update seen c else c)

-- One round: the state that is taken from the channel, and the one that the getters read.
pub record Round : Type 0 where
  pub new : ProfileState
  pub current : ProfileState

-- The rounds after `last`, until the channel is closed: what the client then has.
unfoldable pub watch : ProfileState → List Round → Properties → Properties
watch last [] c = c
watch last (r ∷ rs) c = watch r.new rs (emit (changes last r.new) (properties_of r.current) c)
