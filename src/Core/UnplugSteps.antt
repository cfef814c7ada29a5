-- ===== src/Core/UnplugSteps.antt =====
-- The AC→battery edge of the reducer (hpd-core/src/reducer.rs), taken apart.
use hpd_handheld_power_daemo.Prelude.{
  ◌≡◌, refl, Bool, true, false, ◌⊎◌, inl, inr, [], ok, ◌==◌, bool_eq, ◌>>=◌, >>=-eq-ok,
  if◌then◌else◌,
}
use hpd_handheld_power_daemo.Capability.Power.{PowerEnvelopeLimits}
use hpd_handheld_power_daemo.Capability.Profile.{RuntimeConfig}
use hpd_handheld_power_daemo.Core.State.{ProfileState}
use hpd_handheld_power_daemo.Core.Reducer.{
  ReducerOutput, Reduced, output, set_connected, unplugged, ac_power_changed,
}

abbrev pub UnplugSteps : ProfileState → PowerEnvelopeLimits → RuntimeConfig → ReducerOutput → Type 0
UnplugSteps s limits config o =
    ((s.is_ac_connected ≡ false) × (o ≡ output s []))
    ⊎ ((a : ReducerOutput) × (s.is_ac_connected ≡ true)
        × (unplugged s.last_dc_state s limits config ≡ ok a)
        × (o ≡ set_connected false a))

split :
    (on : Bool) (r : Reduced) (x o : ReducerOutput)
    → (if on == false then ok x else (r >>= λ a. ok (set_connected false a))) ≡ ok o
    → ((on ≡ false) × (o ≡ x))
      ⊎ ((a : ReducerOutput) × (on ≡ true) × (r ≡ ok a) × (o ≡ set_connected false a))
split false r x o h = inl (refl, cc)
split true r x o h = let (a, ea, ha) = >>=-eq-ok r _ h in inr (a, refl, ea, cc ha)

pub unplug_steps :
    (s : ProfileState) (limits : PowerEnvelopeLimits) (config : RuntimeConfig) (o : ReducerOutput)
    → ac_power_changed s false limits config ≡ ok o
    → UnplugSteps s limits config o
unfolding ac_power_changed
unplug_steps s limits config o h =
    split s.is_ac_connected (unplugged s.last_dc_state s limits config) (output s []) o h
