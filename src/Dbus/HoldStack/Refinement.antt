-- ===== src/Dbus/HoldStack/Refinement.antt =====
-- The shim of hpd-dbus/src/ppd_shim.rs against the promise of its module documentation.
use mathlib.Core.Path.{fun_ext}
use hpd_handheld_power_daemo.Prelude.{
  refl, sym, ap, ◌∙◌, true, false, Bool-cases, inl, inr, ℕ, ◌≡◌, none, some, ok, err, Result, ◌>>=◌,
  String, ◌==◌, nat_eq, string_eq, if◌then◌else◌, is_empty, List, [], ◌∷◌, ◌++◌,
}
use hpd_handheld_power_daemo.Capability.Power.{PowerEnvelopeLimits}
use hpd_handheld_power_daemo.Capability.Profile.Names.{profile_from_str}
use hpd_handheld_power_daemo.Capability.Profile.{ProfileName, RuntimeConfig, profile_eq}
use hpd_handheld_power_daemo.Core.State.{ProfileState}
use hpd_handheld_power_daemo.Dbus.Errors.{FdoError, of_from_str}
use hpd_handheld_power_daemo.Dbus.PpdShim.{
  Hold, new_shared, send_profile, send_target, effective_hold_profile, hold, retained,
  release_profile, name_owner_changed, profile_changed, is_holdable, checked_hold, held,
  hold_profile, set_active_profile,
}
use hpd_handheld_power_daemo.Dbus.HoldStack.{
  demanded, HoldEvent, hold_request, release, owner_change, property_write, manual_change,
  HoldStack, or_base, in_force, take_hold, choose, choose_named, after_event, after_events, deliver,
  settled, wrote, step, steps,
}
use hpd_handheld_power_daemo.Dbus.HoldStack.Holdable.{
  AreHoldable, effective-nil, effective-demanded, effective-holdable, effective-snoc,
  checked_hold-is_holdable, after_event-AreHoldable,
}
use hpd_handheld_power_daemo.Dbus.HoldStack.Settled.{
  IsUnlocked, snapshot, stack, session_of, deliver-send_profile, deliver_some, settled-session_of,
  unchanged,
}
use hpd_handheld_power_daemo.Dbus.HoldStack.Removal.{drop-session_of}

retained_all : (hs : List Hold) → retained (λ _. true) hs ≡ []
unfolding retained
retained_all [] = refl
retained_all (h ∷ hs) = retained_all hs

module _ (limits : PowerEnvelopeLimits) (config : RuntimeConfig) (st : ProfileState)
    (u : IsUnlocked st) where
  -- The snapshot of a hold on an empty stack is the profile in force, and so the one below.
  snapshot-take_hold :
      (base : ProfileName) (hs : List Hold) (h : Hold) (c c' : ℕ)
      → (if is_empty hs
          then some (in_force effective_hold_profile (stack base hs c))
          else snapshot (stack base hs c))
        ≡ snapshot (stack base (hs ++ h ∷ []) c')
  unfolding effective_hold_profile
  snapshot-take_hold base [] h c c' = refl
  snapshot-take_hold base (x ∷ hs) h c c' = refl

  held-session_of :
      (k : HoldStack) (r : Result FdoError (ProfileName × String)) (why app : String)
      → AreHoldable k.holds
      → ((p : ProfileName) (holder : String) → r ≡ ok (p, holder) → is_holdable p ≡ true)
      → let (cookie, sent, s) =
          held r why app
            (in_force effective_hold_profile k)
            (session_of effective_hold_profile st k).shared in
        settled limits config sent s (session_of effective_hold_profile st k).state
        ≡ session_of effective_hold_profile st (take_hold why app r k)
  unfolding hold
  held-session_of k (err e) why app a holdable = unchanged limits config st u k
  held-session_of k (ok (p, holder)) why app a holdable =
      let k' = take_hold why app (ok (p, holder)) k in
      let h : Hold = record {
        cookie = k.next_cookie;
        profile = p;
        application_id = app;
        reason = why;
        holder = holder;
      } in
      let (q, f) = effective-snoc k.holds h a (holdable p holder refl) in
      settled-session_of limits config st u (send_target (effective_hold_profile k'.holds)) _ _ k'
        (ap (λ o. record { holds = k'.holds; next_cookie = k'.next_cookie; pre_hold_profile = o })
          (snapshot-take_hold k.base k.holds h k.next_cookie k'.next_cookie))
        (ap
            (λ o.
              deliver limits config (send_target o) (session_of effective_hold_profile st k).state)
            f
          ∙ deliver_some limits config st u k' q _ (ap (λ o. or_base o k.base) f))

  -- A choice on a stack of holds that come to `q`.
  choose_over_holds :
      (k : HoldStack) (p q : ProfileName)
      → is_empty k.holds ≡ false
      → effective_hold_profile k.holds ≡ some q
      → settled limits config
          (send_profile p)
          (session_of effective_hold_profile st k).shared
          (session_of effective_hold_profile st k).state
        ≡ session_of effective_hold_profile st (choose effective_hold_profile p k)
  unfolding profile_changed
  choose_over_holds k p q e f = elim (Bool-cases (q == p)) [
    | inl same ↦
        rw (deliver-send_profile limits config p (session_of effective_hold_profile st k).state u) (
          rw (f, e, same)
            (rw (f, e)
              (ap
                (λ x. record {
                  shared = record {
                    holds = k.holds;
                    next_cookie = k.next_cookie;
                    pre_hold_profile = some k.base;
                  };
                  state = record st { active_profile = x };
                })
                (sym ((profile_eq.beq_iff q p).0 same)))))
    | inr other ↦
        rw (deliver-send_profile limits config p (session_of effective_hold_profile st k).state u)
          (rw (f, e, other) (rw (retained_all k.holds, effective-nil) refl))
  ]

  choose_on_empty :
      (base p : ProfileName) (c : ℕ)
      → let k = stack base [] c in
        settled limits config
          (send_profile p)
          (session_of effective_hold_profile st k).shared
          (session_of effective_hold_profile st k).state
        ≡ session_of effective_hold_profile st (choose effective_hold_profile p k)
  unfolding profile_changed effective_hold_profile
  choose_on_empty base p c =
      rw
        (deliver-send_profile limits config p
          (session_of effective_hold_profile st (stack base [] c)).state u)
        refl

  choose-session_of :
      (base : ProfileName) (hs : List Hold) (c : ℕ) (p : ProfileName)
      → AreHoldable hs
      → let k = stack base hs c in
        settled limits config
          (send_profile p)
          (session_of effective_hold_profile st k).shared
          (session_of effective_hold_profile st k).state
        ≡ session_of effective_hold_profile st (choose effective_hold_profile p k)
  choose-session_of base [] c p a = choose_on_empty base p c
  choose-session_of base (h ∷ hs) c p a =
      let (q, f) = effective-holdable h hs a in choose_over_holds (stack base (h ∷ hs) c) p q refl f

  written-session_of :
      (k : HoldStack) (r : Result FdoError ProfileName)
      → AreHoldable k.holds
      → wrote limits config
          (r >>= λ p. ok (send_profile p))
          (session_of effective_hold_profile st k)
        ≡ session_of effective_hold_profile st (choose_named effective_hold_profile r k)
  written-session_of k (ok p) a = choose-session_of k.base k.holds k.next_cookie p a
  written-session_of k (err e) a = refl

  -- Without the lock, an event does to the shim and the daemon what the promise says.
  step-session_of :
      (e : HoldEvent) (k : HoldStack)
      → AreHoldable k.holds
      → step limits config e (session_of effective_hold_profile st k)
        ≡ session_of effective_hold_profile st (after_event effective_hold_profile e k)
  unfolding step after_event hold_profile release_profile name_owner_changed set_active_profile
  step-session_of (hold_request name why app sender) k a =
      held-session_of k (checked_hold name sender) why app a (checked_hold-is_holdable name sender)
  step-session_of (release cookie) k a =
      drop-session_of limits config st u (λ h. h.cookie == cookie) k a
  step-session_of (owner_change (some gone) none) k a =
      drop-session_of limits config st u (λ h. h.holder == gone) k a
  step-session_of (owner_change (some old) (some new)) k a = unchanged limits config st u k
  step-session_of (owner_change none new) k a = unchanged limits config st u k
  step-session_of (property_write value) k a =
      written-session_of k (of_from_str (profile_from_str value)) a
  step-session_of (manual_change p) k a = choose-session_of k.base k.holds k.next_cookie p a

steps-session_of :
    (limits : PowerEnvelopeLimits) (config : RuntimeConfig) (st : ProfileState)
    → IsUnlocked st
    → (es : List HoldEvent) (k : HoldStack) → AreHoldable k.holds
    → steps limits config es (session_of effective_hold_profile st k)
      ≡ session_of effective_hold_profile st (after_events effective_hold_profile es k)
unfolding steps after_events
steps-session_of limits config st u [] k a = refl
steps-session_of limits config st u (e ∷ es) k a =
    ap (steps limits config es) (step-session_of limits config st u e k a)
    ∙ steps-session_of limits config st u es (after_event effective_hold_profile e k)
        (after_event-AreHoldable e k a)

abbrev pub new_stack : ProfileState → HoldStack
new_stack st = stack st.active_profile [] 1

-- Where the lock of maximum performance on AC is not in force, and each event is delivered and
-- reconciled before the next, the shim with the reducer behind it is after any events what the
-- promise is: its holds and cookies are those of the stack; the profile of the daemon is the one that
-- the holds demand, where power saving outranks performance, and without holds the one below them,
-- which a choice sets unless there are holds and it is the profile in force; the profile to restore is
-- kept just while there are holds; and nothing else of the state has changed.
pub steps-after_events :
    (limits : PowerEnvelopeLimits) (config : RuntimeConfig) (st : ProfileState)
    → IsUnlocked st
    → (es : List HoldEvent)
    → steps limits config es (record { shared = new_shared; state = st })
      ≡ session_of demanded st (after_events demanded es (new_stack st))
unfolding effective_hold_profile
steps-after_events limits config st u es =
    steps-session_of limits config st u es (new_stack st) tt
    ∙ ap (λ d. session_of d st (after_events d es (new_stack st))) (fun_ext effective-demanded)
