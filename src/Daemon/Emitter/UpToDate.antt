-- ===== src/Daemon/Emitter/UpToDate.antt =====
-- What a client has after the rounds of the emitter of hpd-daemon/src/main.rs.
use hpd_handheld_power_daemo.Prelude.{
  bool_eq, option_eq, refl, sym, ap, ◌∙◌, false, Bool, Bool-cases, inl, inr, ◌≡◌, arith, Equality,
  ◌!=◌, nat_eq, string_eq, List, [], ◌∷◌,
}
use hpd_handheld_power_daemo.Capability.Units.{as_watts}
use hpd_handheld_power_daemo.Capability.Profile.Names.{display_profile}
use hpd_handheld_power_daemo.Core.State.{ProfileState}
use hpd_handheld_power_daemo.Capability.Power.{target_eq}
use hpd_handheld_power_daemo.Capability.Profile.{profile_eq}
use hpd_handheld_power_daemo.Capability.FanCurve.{selection_eq}
use hpd_handheld_power_daemo.Capability.GpuClock.{clock_eq}
use hpd_handheld_power_daemo.Dbus.Service.Properties.{
  Properties, properties_of, fan_curve_text, gpu_clock_range_text,
}
use hpd_handheld_power_daemo.Daemon.Emitter.{Update, changes, emit, watch, Round}

-- What is not signalled is known already.
unfoldable AreQuiet : List (Bool × Update) → Properties → Properties → Type 0
AreQuiet [] seen c = Unit {0}
AreQuiet ((b, update) ∷ rest) seen c =
    (b ≡ false → update seen c ≡ c) × AreQuiet rest seen (update seen c)

unfoldable update_all : List (Bool × Update) → Properties → Properties → Properties
update_all [] seen c = c
update_all ((b, update) ∷ rest) seen c = update_all rest seen (update seen c)

emit-update_all :
    (l : List (Bool × Update)) (seen c : Properties)
    → AreQuiet l seen c
    → emit l seen c ≡ update_all l seen c
unfolding AreQuiet update_all emit
emit-update_all [] seen c q = refl
emit-update_all ((b, update) ∷ rest) seen c q = elim (Bool-cases b) [
  | inl e ↦ rw e (emit-update_all rest seen (update seen c) q.1)
  | inr e ↦ rw e (ap (emit rest seen) (sym (q.0 e)) ∙ emit-update_all rest seen (update seen c) q.1)
]

same {ℓ} : {A : Type ℓ} ⦃eq : Equality A⦄ → (x y : A) → (x != y) ≡ false → x ≡ y
same ⦃eq⦄ x y h = (eq.beq_iff x y).0 (ground arith)

keep_current_spl :
    (seen c : Properties)
    → seen.current_spl ≡ c.current_spl
    → record c { current_spl = seen.current_spl } ≡ c
keep_current_spl seen c e = ap (λ v. record c { current_spl = v }) e

keep_active_profile :
    (seen c : Properties)
    → seen.active_profile ≡ c.active_profile
    → record c { active_profile = seen.active_profile } ≡ c
keep_active_profile seen c e = ap (λ v. record c { active_profile = v }) e

keep_charge_end_threshold :
    (seen c : Properties)
    → seen.charge_end_threshold ≡ c.charge_end_threshold
    → record c { charge_end_threshold = seen.charge_end_threshold } ≡ c
keep_charge_end_threshold seen c e = ap (λ v. record c { charge_end_threshold = v }) e

keep_auto_cooling :
    (seen c : Properties)
    → seen.auto_cooling ≡ c.auto_cooling
    → record c { auto_cooling = seen.auto_cooling } ≡ c
keep_auto_cooling seen c e = ap (λ v. record c { auto_cooling = v }) e

keep_fan_curve :
    (seen c : Properties)
    → seen.fan_curve ≡ c.fan_curve
    → record c { fan_curve = seen.fan_curve } ≡ c
keep_fan_curve seen c e = ap (λ v. record c { fan_curve = v }) e

keep_gpu_clock_range :
    (seen c : Properties)
    → seen.gpu_clock_range ≡ c.gpu_clock_range
    → record c { gpu_clock_range = seen.gpu_clock_range } ≡ c
keep_gpu_clock_range seen c e = ap (λ v. record c { gpu_clock_range = v }) e

keep_gpu_follows_tdp :
    (seen c : Properties)
    → seen.gpu_follows_tdp ≡ c.gpu_follows_tdp
    → record c { gpu_follows_tdp = seen.gpu_follows_tdp } ≡ c
keep_gpu_follows_tdp seen c e = ap (λ v. record c { gpu_follows_tdp = v }) e

keep_ac_connected :
    (seen c : Properties)
    → seen.ac_connected ≡ c.ac_connected
    → record c { ac_connected = seen.ac_connected } ≡ c
keep_ac_connected seen c e = ap (λ v. record c { ac_connected = v }) e

keep_ac_locked :
    (seen c : Properties)
    → seen.ac_locked ≡ c.ac_locked
    → record c { ac_locked = seen.ac_locked } ≡ c
keep_ac_locked seen c e = ap (λ v. record c { ac_locked = v }) e

keep_ac_max_performance :
    (seen c : Properties)
    → seen.ac_max_performance ≡ c.ac_max_performance
    → record c { ac_max_performance = seen.ac_max_performance } ≡ c
keep_ac_max_performance seen c e = ap (λ v. record c { ac_max_performance = v }) e

changes-AreQuiet :
    (last new : ProfileState) → AreQuiet (changes last new) (properties_of new) (properties_of last)
unfolding AreQuiet
changes-AreQuiet last new = (
  λ e.
      keep_current_spl (properties_of new) _
        (ap as_watts (same new.power_target.spl last.power_target.spl e)),
  (
    λ e.
        keep_active_profile (properties_of new) _
          (ap display_profile (same new.active_profile last.active_profile e)),
    (
      λ e.
          keep_charge_end_threshold (properties_of new) _
            (same new.charge_end_threshold last.charge_end_threshold e),
      (
        λ e.
            keep_auto_cooling (properties_of new) _
              (same new.fan_follows_tdp last.fan_follows_tdp e),
        (
          λ e.
              keep_fan_curve (properties_of new) _
                (ap fan_curve_text (same new.active_fan_curve last.active_fan_curve e)),
          (
            λ e.
                keep_gpu_clock_range (properties_of new) _
                  (ap gpu_clock_range_text (same new.active_gpu_clock last.active_gpu_clock e)),
            (
              λ e.
                  keep_gpu_follows_tdp (properties_of new) _
                    (same new.gpu_follows_tdp last.gpu_follows_tdp e),
              (
                λ e.
                    keep_ac_connected (properties_of new) _
                      (same new.is_ac_connected last.is_ac_connected e),
                (
                  λ e. keep_ac_locked (properties_of new) _ (same new.ac_locked last.ac_locked e),
                  (
                    λ e.
                        keep_ac_max_performance (properties_of new) _
                          (same new.ac_max_performance last.ac_max_performance e),
                    tt,
                  ),
                ),
              ),
            ),
          ),
        ),
      ),
    ),
  ),
)

emit-properties_of :
    (last new : ProfileState)
    → emit (changes last new) (properties_of new) (properties_of last) ≡ properties_of new
unfolding update_all
emit-properties_of last new =
    emit-update_all (changes last new) (properties_of new) (properties_of last)
      (changes-AreQuiet last new)

-- Each round sees the state that it was woken for.
abbrev pub in_time : ProfileState → Round
in_time s = record { new = s; current = s }

abbrev pub last_of : ProfileState → List ProfileState → ProfileState
last_of s [] = s
last_of s (s' ∷ ss) = last_of s' ss

abbrev pub rounds_of : List ProfileState → List Round
rounds_of [] = []
rounds_of (s ∷ ss) = in_time s ∷ rounds_of ss

-- A client that has read the properties once and takes every signal knows them after any states,
-- where no state is published between the round for the one before and its signals.
pub watch-properties_of :
    (ss : List ProfileState) (s : ProfileState)
    → watch s (rounds_of ss) (properties_of s) ≡ properties_of (last_of s ss)
unfolding watch
watch-properties_of [] s = refl
watch-properties_of (s' ∷ ss) s =
    ap (watch s' (rounds_of ss)) (emit-properties_of s s') ∙ watch-properties_of ss s'
