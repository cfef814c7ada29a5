-- ===== src/Dbus/HoldStack/Settled.antt =====
-- The session of hpd-dbus/src/ppd_shim.rs that stands for a stack of holds, and when the reconciler
-- leaves it so.
use hpd_handheld_power_daemo.Prelude.{
  refl, sym, ap, ◌∙◌, true, false, ◌&&◌, ℕ, ◌≡◌, Option, none, some, arith, nat_eq, string_eq,
  if◌then◌else◌, is_empty, List, [],
}
use hpd_handheld_power_daemo.Capability.Power.{PowerEnvelopeLimits}
use hpd_handheld_power_daemo.Capability.Profile.{ProfileName, RuntimeConfig, profile_eq}
use hpd_handheld_power_daemo.Core.State.{ProfileState}
use hpd_handheld_power_daemo.Core.Transition.{Transition}
use hpd_handheld_power_daemo.Core.Reducer.{reduce, reduce_set_profile, gate, set_profile}
use hpd_handheld_power_daemo.Dbus.PpdShim.{
  Hold, Shared, send_profile, effective_hold_profile, is_expected, profile_changed,
}
use hpd_handheld_power_daemo.Dbus.HoldStack.{
  HoldStack, or_base, in_force, Session, deliver, settled,
}

abbrev pub IsUnlocked : ProfileState → Type 0
IsUnlocked st = (st.is_ac_connected && st.ac_max_performance) ≡ false

-- What the shim keeps to restore.
abbrev pub snapshot : HoldStack → Option ProfileName
snapshot k = if is_empty k.holds then none else some k.base

-- The shim and the daemon that stand for a stack of holds.
abbrev pub session_of : (List Hold → Option ProfileName) → ProfileState → HoldStack → Session
session_of demand st k = record {
  shared = record { holds = k.holds; next_cookie = k.next_cookie; pre_hold_profile = snapshot k };
  state = record st { active_profile = in_force demand k };
}

pub deliver-send_profile :
    (limits : PowerEnvelopeLimits) (config : RuntimeConfig) (p : ProfileName) (st : ProfileState)
    → IsUnlocked st
    → deliver limits config (send_profile p) st ≡ record st { active_profile = p }
unfolding deliver reduce reduce_set_profile gate set_profile
deliver-send_profile limits config p st u =
    rw u (ground (arith, profile_eq.beq_iff st.active_profile p))

abbrev pub stack : ProfileName → List Hold → ℕ → HoldStack
stack base holds cookie = record { base = base; holds = holds; next_cookie = cookie }

is_expected-or_base :
    (o : Option ProfileName) (base : ProfileName) → is_expected o (or_base o base) ≡ true
is_expected-or_base none base = refl
is_expected-or_base (some p) base = ground (arith, profile_eq.beq_iff p p)

profile_changed-in_force :
    (s : Shared) (base : ProfileName)
    → profile_changed (or_base (effective_hold_profile s.holds) base) s ≡ ([], s)
unfolding profile_changed
profile_changed-in_force s base =
    rw (is_expected-or_base (effective_hold_profile s.holds) base) refl

module _ (limits : PowerEnvelopeLimits) (config : RuntimeConfig) (st : ProfileState)
    (u : IsUnlocked st) where
  pub deliver_some :
      (k : HoldStack) (p q : ProfileName)
      → in_force effective_hold_profile k ≡ p
      → deliver limits config (send_profile p) (record st { active_profile = q })
        ≡ (session_of effective_hold_profile st k).state
  deliver_some k p q e =
      deliver-send_profile limits config p _ u ∙ ap (λ x. record st { active_profile = x }) (sym e)

  -- It is enough that the shim is right before the reconciler looks, and the daemon too.
  pub settled-session_of :
      (sent : List Transition) (s : Shared) (before : ProfileState) (k : HoldStack)
      → s ≡ (session_of effective_hold_profile st k).shared
      → deliver limits config sent before ≡ (session_of effective_hold_profile st k).state
      → settled limits config sent s before ≡ session_of effective_hold_profile st k
  settled-session_of sent s before k es ed =
      rw (es, ed)
        (ap (λ r. record { shared = r.1; state = (session_of effective_hold_profile st k).state })
          (profile_changed-in_force (session_of effective_hold_profile st k).shared k.base))

  pub unchanged :
      (k : HoldStack)
      → settled limits config []
          (session_of effective_hold_profile st k).shared
          (session_of effective_hold_profile st k).state
        ≡ session_of effective_hold_profile st k
  unfolding deliver
  unchanged k = settled-session_of [] _ _ k refl refl
