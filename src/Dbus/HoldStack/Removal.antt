-- ===== src/Dbus/HoldStack/Removal.antt =====
-- The removal of holds in hpd-dbus/src/ppd_shim.rs: what is sent to the daemon when holds end.
use hpd_handheld_power_daemo.Prelude.{
  refl, ap, ◌∙◌, false, Bool, Bool-cases, inl, inr, ℕ, ◌≡◌, ◌⊎◌, Option, none, some, nat_eq,
  string_eq, is_empty, List, [], ◌∷◌,
}
use hpd_handheld_power_daemo.Capability.Power.{PowerEnvelopeLimits}
use hpd_handheld_power_daemo.Capability.Profile.{ProfileName, RuntimeConfig, profile_eq}
use hpd_handheld_power_daemo.Core.State.{ProfileState}
use hpd_handheld_power_daemo.Dbus.PpdShim.{
  Hold, send_profile, effective_hold_profile, removed_cookies, retained, remove_holds,
  restore_pre_hold_snapshot, settle,
}
use hpd_handheld_power_daemo.Dbus.HoldStack.{HoldStack, or_base, drop_holds, Session, settled}
use hpd_handheld_power_daemo.Dbus.HoldStack.Holdable.{
  AreHoldable, AreHoldable-retained, retained-without_ended, effective-holdable,
}
use hpd_handheld_power_daemo.Dbus.HoldStack.Settled.{
  IsUnlocked, session_of, deliver_some, settled-session_of, unchanged,
}

-- A removal takes nothing, or the stack was not empty.
removal :
    (q : Hold → Bool) (hs : List Hold)
    → ((removed_cookies q hs ≡ []) × (retained q hs ≡ hs))
      ⊎ ((c : ℕ) × (cs : List ℕ) × (removed_cookies q hs ≡ c ∷ cs) × (is_empty hs ≡ false))
unfolding removed_cookies retained
removal q [] = inl (refl, refl)
removal q (h ∷ hs) = elim (Bool-cases (q h)) [
  | inl e ↦ rw e (inr (h.cookie, removed_cookies q hs, refl, refl))
  | inr e ↦ rw e (elim (removal q hs) [
    | inl none_removed ↦ inl (none_removed.0, ap (λ l. h ∷ l) none_removed.1)
    | inr (c, cs, e', f) ↦ inr (c, cs, e', refl)
  ])
]

module _ (limits : PowerEnvelopeLimits) (config : RuntimeConfig) (st : ProfileState)
    (u : IsUnlocked st) where
  -- What is sent after a removal, where `target` is what the holds that are left come to.
  abbrev after_removal : ℕ → List ℕ → HoldStack → List Hold → Option ProfileName → Session
  after_removal c cs k left target =
      let (sent, s) = settle (
        (c ∷ cs, target),
        record (session_of effective_hold_profile st k).shared { holds = left },
      ) in
      settled limits config sent s (session_of effective_hold_profile st k).state

  drained :
      (c : ℕ) (cs : List ℕ) (k : HoldStack)
      → is_empty k.holds ≡ false
      → after_removal c cs k [] none
        ≡ session_of effective_hold_profile st (record k { holds = [] })
  unfolding settle restore_pre_hold_snapshot effective_hold_profile
  drained c cs k e = rw e (
      settled-session_of limits config st u (send_profile k.base) _ _ (record k { holds = [] }) refl
        (deliver_some limits config st u (record k { holds = [] }) k.base _ refl))

  still_held :
      (c : ℕ) (cs : List ℕ) (k : HoldStack) (h : Hold) (hs : List Hold) (p : ProfileName)
      → is_empty k.holds ≡ false
      → effective_hold_profile (h ∷ hs) ≡ some p
      → after_removal c cs k (h ∷ hs) (some p)
        ≡ session_of effective_hold_profile st (record k { holds = h ∷ hs })
  unfolding settle
  still_held c cs k h hs p e f =
      let left = record k { holds = h ∷ hs } in
      rw e (
        settled-session_of limits config st u (send_profile p) _ _ left refl
          (deliver_some limits config st u left p _ (ap (λ o. or_base o k.base) f)))

  -- The holds that are left are in force, or the profile below them is.
  settled-left :
      (c : ℕ) (cs : List ℕ) (k : HoldStack) (left : List Hold)
      → AreHoldable left
      → is_empty k.holds ≡ false
      → after_removal c cs k left (effective_hold_profile left)
        ≡ session_of effective_hold_profile st (record k { holds = left })
  settled-left c cs k [] a e = unfold effective_hold_profile in drained c cs k e
  settled-left c cs k (h ∷ hs) a e =
      let (p, f) = effective-holdable h hs a in
      ap (after_removal c cs k (h ∷ hs)) f ∙ still_held c cs k h hs p e f

  drop_retained :
      (q : Hold → Bool) (k : HoldStack)
      → AreHoldable k.holds
      → let (sent, s) = settle (remove_holds q (session_of effective_hold_profile st k).shared) in
        settled limits config sent s (session_of effective_hold_profile st k).state
        ≡ session_of effective_hold_profile st (record k { holds = retained q k.holds })
  unfolding remove_holds settle
  drop_retained q k a = elim (removal q k.holds) [
    | inl (none_removed, same) ↦ rw (none_removed, same) (unchanged limits config st u k)
    | inr (c, cs, e, f) ↦
        rw e (settled-left c cs k (retained q k.holds) (AreHoldable-retained q k.holds a) f)
  ]

  pub drop-session_of :
      (q : Hold → Bool) (k : HoldStack)
      → AreHoldable k.holds
      → let (sent, s) = settle (remove_holds q (session_of effective_hold_profile st k).shared) in
        settled limits config sent s (session_of effective_hold_profile st k).state
        ≡ session_of effective_hold_profile st (drop_holds q k)
  drop-session_of q k a =
      drop_retained q k a
      ∙ ap (λ l. session_of effective_hold_profile st (record k { holds = l }))
          (retained-without_ended q k.holds)
