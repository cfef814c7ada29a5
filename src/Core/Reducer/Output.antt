-- ===== src/Core/Reducer/Output.antt =====
-- hpd-core/src/reducer.rs: the output of the reducer, and the lock that ignores user writes on AC.
use hpd_handheld_power_daemo.Prelude.{
  Bool, true, false, ◌&&◌, List, [], ◌∷◌, ◌++◌, ok, if◌then◌else◌,
}
use hpd_handheld_power_daemo.Error.{Fallible}
use hpd_handheld_power_daemo.Core.State.{ProfileState}
use hpd_handheld_power_daemo.Core.Transition.{Transition}
use hpd_handheld_power_daemo.Core.Effect.{Effect}

pub record ReducerOutput : Type 0 where
  pub new_state : ProfileState
  pub effects : List Effect

abbrev pub Reduced : Type 0
Reduced = Fallible ReducerOutput

abbrev pub output : ProfileState → List Effect → ReducerOutput
output s es = record { new_state = s; effects = es }

-- `effects.push(e)`
abbrev pub push : ReducerOutput → Effect → ReducerOutput
push o e = record o { effects = o.effects ++ e ∷ [] }

-- A change of the state under construction.
abbrev pub update : ReducerOutput → ProfileState → ReducerOutput
update o s = record o { new_state = s }

unfoldable pub is_locked_write : Transition → Bool
is_locked_write (Transition.set_spl _) = true
is_locked_write (Transition.set_preset _) = true
is_locked_write (Transition.set_envelope _) = true
is_locked_write (Transition.set_profile _) = true
is_locked_write (Transition.set_cooling_level _) = true
is_locked_write (Transition.set_custom_fan_curve _ _) = true
is_locked_write Transition.enable_fan_auto = true
is_locked_write Transition.reset_fan_curve = true
is_locked_write Transition.enable_gpu_auto_follow = true
is_locked_write Transition.reset_gpu_clocks = true
is_locked_write Transition.restore_defaults = true
is_locked_write _ = false

-- The test at the head of `reduce`; `arm` is the `match` below it.
unfoldable pub gate : ProfileState → Transition → Reduced → Reduced
unfolding is_locked_write
gate s t arm =
    if s.is_ac_connected && s.ac_max_performance && is_locked_write t then ok (output s []) else arm
