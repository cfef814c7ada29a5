-- ===== src/Dbus/Service/Authorization.antt =====
-- Which transitions the methods of hpd-dbus/src/service.rs let through.
use hpd_handheld_power_daemo.Prelude.{Bool, true}
use hpd_handheld_power_daemo.Prelude.{
  refl, true, false, ◌&&◌, Bool-cases, inl, inr, ◌≤◌, ◌≡◌, ◌⊎◌, some, ok, err, Result, arith,
  nat_eq, string_eq, List, [], ◌∷◌,
}
use hpd_handheld_power_daemo.Capability.FanCurve.{FanCurveConstraints, validate_against}
use hpd_handheld_power_daemo.Core.State.{ProfileState}
use hpd_handheld_power_daemo.Core.Transition.{Transition}
use hpd_handheld_power_daemo.Dbus.Errors.{FdoError}
use hpd_handheld_power_daemo.Dbus.Service.{
  PolkitAction, set_tdp_action, set_charge_action, set_profile_action, Request, Interface, Call,
  prepare, send, handle,
}

abbrev pub IsAuthorized : Call → PolkitAction → Type 0
IsAuthorized call action = call.authorized action ≡ true

-- What a transition of a caller needs, by what it changes: the envelope, the battery, or the profile
-- and the cooling. The other transitions are the daemon's own.
abbrev pub IsPermitted : Interface → Call → Transition → Type 0
IsPermitted api call (Transition.set_spl watts) = IsAuthorized call set_tdp_action
IsPermitted api call (Transition.set_preset p) = IsAuthorized call set_tdp_action
IsPermitted api call (Transition.charge_threshold_changed c) =
    IsAuthorized call set_charge_action × (20 ≤ c) × (c ≤ 100)
IsPermitted api call (Transition.set_ac_max_performance enabled) =
    IsAuthorized call set_profile_action
IsPermitted api call (Transition.set_profile p) = IsAuthorized call set_profile_action
IsPermitted api call (Transition.set_cooling_level p) = IsAuthorized call set_profile_action
IsPermitted api call (Transition.set_custom_fan_curve cpu gpu) =
    IsAuthorized call set_profile_action
    × (c : FanCurveConstraints) × (api.curve_constraints ≡ some c)
    × (validate_against cpu c ≡ ok tt)
    × (validate_against gpu c ≡ ok tt)
IsPermitted api call Transition.enable_fan_auto = IsAuthorized call set_profile_action
IsPermitted api call Transition.reset_fan_curve = IsAuthorized call set_profile_action
IsPermitted api call Transition.enable_gpu_auto_follow =
    IsAuthorized call set_profile_action × (api.has_gpu_clock ≡ true)
IsPermitted api call Transition.reset_gpu_clocks = IsAuthorized call set_profile_action
IsPermitted api call Transition.restore_defaults =
    IsAuthorized call set_tdp_action
    × IsAuthorized call set_charge_action
    × IsAuthorized call set_profile_action
IsPermitted api call _ = ⊥

-- A write of a power or cooling lever.
unfoldable pub writes_lever : Transition → Bool
writes_lever (Transition.set_preset _) = true
writes_lever (Transition.set_spl _) = true
writes_lever (Transition.set_envelope _) = true
writes_lever (Transition.set_profile _) = true
writes_lever (Transition.set_cooling_level _) = true
writes_lever (Transition.set_custom_fan_curve _ _) = true
writes_lever Transition.enable_fan_auto = true
writes_lever Transition.reset_fan_curve = true
writes_lever Transition.enable_gpu_auto_follow = true
writes_lever Transition.reset_gpu_clocks = true
writes_lever Transition.restore_defaults = true
writes_lever _ = false

-- No write that the lock forbids goes through while the published state is locked.
abbrev pub RespectsLock : ProfileState → Transition → Type 0
RespectsLock st t = (writes_lever t && st.ac_locked) ≡ false

module _ (api : Interface) (call : Call) (st : ProfileState) where
  abbrev pub IsAllowed : Transition → Type 0
  IsAllowed t = IsPermitted api call t × RespectsLock st t

  prepare-IsAllowed : (r : Request) (t : Transition) → prepare api call st r ≡ ok t → IsAllowed t
  unfolding prepare writes_lever
  prepare-IsAllowed (Request.set_spl watts) t e = ground arith
  prepare-IsAllowed (Request.set_preset name) t e = ground arith
  prepare-IsAllowed (Request.set_charge_threshold c) t e = ground arith
  prepare-IsAllowed (Request.set_ac_max_performance b) t e = ground arith
  prepare-IsAllowed (Request.set_profile name) t e = ground arith
  prepare-IsAllowed (Request.set_cooling_level name) t e = ground arith
  prepare-IsAllowed Request.set_fan_auto t e = ground arith
  prepare-IsAllowed Request.reset_fan_curve t e = ground arith
  prepare-IsAllowed (Request.set_fan_curve cpu gpu) t e = ground arith
  prepare-IsAllowed Request.enable_gpu_auto_follow t e = ground arith
  prepare-IsAllowed Request.reset_gpu_clocks t e = ground arith
  prepare-IsAllowed Request.restore_defaults t e = ground arith

  -- The answer to a call with what it puts in the channel.
  abbrev pub Answer : Result FdoError (Unit {0}) × List Transition → Type 0
  Answer (r, sent) =
      ((e : FdoError) × (r ≡ err e) × (sent ≡ []))
      ⊎ ((t : Transition) × (r ≡ ok tt) × (sent ≡ t ∷ []) × IsAllowed t)

  send-Answer :
      (p : Result FdoError Transition)
      → ((t : Transition) → p ≡ ok t → IsAllowed t)
      → Answer (send api call p)
  send-Answer (err e) allowed = inl (e, refl, refl)
  send-Answer (ok t) allowed = elim (Bool-cases call.executor_up) [
    | inl up ↦ rw up (inr (t, refl, refl, allowed t refl))
    | inr down ↦ rw down (inl (_, refl, refl))
  ]

  -- A call either fails with nothing sent, or it succeeds with one transition sent, and then polkit
  -- has authorized the caller for what the transition changes, a charge threshold in it is from 20 to
  -- 100 and curves in it are accepted for the device, and it writes no power or cooling lever while
  -- the published state is locked.
  pub handle-Answer : (r : Request) → Answer (handle api call st r)
  unfolding handle
  handle-Answer r = send-Answer (prepare api call st r) (prepare-IsAllowed r)
