-- ===== src/Core/Reducer.antt =====
-- hpd-core/src/reducer.rs: `reduce`. Its arms are the functions of the modules below, and each
-- recursive call of `reduce` in the source is a call of the reducing function of that transition,
-- the test of the lock included.
mod Output
mod PowerEnvelope
mod Levers
mod AcLock
mod Defaults
unfoldable pub use Output.*
unfoldable pub use PowerEnvelope.*
unfoldable pub use Levers.*
unfoldable pub use AcLock.*
unfoldable pub use Defaults.*
use hpd_handheld_power_daemo.Prelude.{Bool, [], ◌∷◌, ok, Option, none, some}
use hpd_handheld_power_daemo.Capability.Power.{PowerEnvelopeLimits}
use hpd_handheld_power_daemo.Capability.Profile.{RuntimeConfig}
use hpd_handheld_power_daemo.Core.State.{ProfileState}
use hpd_handheld_power_daemo.Core.Transition.{Transition}
use hpd_handheld_power_daemo.Core.Effect.{persist_state}

-- `shutdown`, and `config_reload`, which the executor intercepts
unfoldable pub reduce : ProfileState → Transition → PowerEnvelopeLimits → RuntimeConfig → Reduced
reduce s (Transition.set_preset p) limits config = reduce_set_preset s p limits config
reduce s (Transition.set_spl w) limits config = reduce_set_spl s w limits config
reduce s (Transition.set_envelope t) limits config = reduce_set_envelope s t limits config
reduce s (Transition.set_profile p) limits config = reduce_set_profile s p
reduce s (Transition.set_cooling_level p) limits config = reduce_set_cooling_level s p
reduce s (Transition.set_custom_fan_curve c g) limits config = reduce_set_custom_fan_curve s c g
reduce s Transition.enable_gpu_auto_follow limits config =
    reduce_enable_gpu_auto_follow s limits config
reduce s Transition.reset_gpu_clocks limits config = reduce_reset_gpu_clocks s
reduce s (Transition.sync_gpu_clock_range r) limits config = ok (sync_gpu_clock_range s r)
reduce s (Transition.charge_threshold_changed c) limits config = ok (charge_threshold_changed s c)
reduce s (Transition.sync_power_target t) limits config = ok (sync_power_target s t)
reduce s (Transition.sync_platform_profile p) limits config = ok (sync_platform_profile s p)
reduce s (Transition.sync_charge_threshold c) limits config = ok (sync_charge_threshold s c)
reduce s (Transition.sync_fan_curve f) limits config = ok (sync_fan_curve s f)
reduce s (Transition.ac_power_changed b) limits config = ac_power_changed s b limits config
reduce s Transition.system_resumed limits config = ok (system_resumed s limits config)
reduce s (Transition.set_ac_max_performance b) limits config =
    ok (set_ac_max_performance s b limits config)
reduce s Transition.enable_fan_auto limits config = reduce_enable_fan_auto s limits config
reduce s Transition.reset_fan_curve limits config = reduce_reset_fan_curve s
reduce s Transition.restore_defaults limits config = reduce_restore_defaults s limits config
reduce s (Transition.config_reload c) limits config = ok (output s [])
reduce s Transition.shutdown limits config = ok (output s (persist_state ∷ []))
