-- ===== src/Dbus/HoldStack/Holdable.antt =====
-- The holds of the shim of hpd-dbus/src/ppd_shim.rs: what they demand, and that only the profiles
-- that may be held come into a stack.
use hpd_handheld_power_daemo.Prelude.{◌||◌}
use hpd_handheld_power_daemo.Prelude.{
  if◌then◌else◌, refl, true, false, Bool, Bool-cases, inl, inr, ◌≡◌, Option, none, some, ok, err,
  Result, arith, String, ◌==◌, nat_eq, string_eq, All, is_empty, List, [], ◌∷◌, ◌++◌,
}
use hpd_handheld_power_daemo.Capability.Profile.Names.{profile_from_str}
use hpd_handheld_power_daemo.Capability.Profile.{ProfileName, profile_beq, profile_eq}
use hpd_handheld_power_daemo.Dbus.Errors.{FdoError, of_from_str}
use hpd_handheld_power_daemo.Dbus.PpdShim.{
  Hold, is_held, effective_hold_profile, retained, is_holdable, checked_hold,
}
use hpd_handheld_power_daemo.Dbus.HoldStack.{
  ap, without_ended, outranking, sym, demanded, HoldEvent, hold_request, release, owner_change,
  property_write, manual_change, HoldStack, in_force, take_hold, choose, choose_named, after_event,
}

abbrev pub IsHoldable : Hold → Type 0
IsHoldable h = is_holdable h.profile ≡ true

-- Only the two profiles that may be held are in the stack.
abbrev pub AreHoldable : List Hold → Type 0
AreHoldable = All IsHoldable

pub AreHoldable-snoc :
    (hs : List Hold) (h : Hold) → AreHoldable hs → IsHoldable h → AreHoldable (hs ++ h ∷ [])
AreHoldable-snoc [] h a b = (b, tt)
AreHoldable-snoc (x ∷ hs) h a b = (a.0, AreHoldable-snoc hs h a.1 b)

pub effective-nil : effective_hold_profile [] ≡ none
unfolding effective_hold_profile
effective-nil = refl

-- What the shim computes is what the documentation says.
outranking-held :
    (p : ProfileName) (saver performance : Bool) (rest : Option ProfileName)
    → rest ≡ (
        if saver
        then some ProfileName.power_saver
        else if performance
        then some ProfileName.performance
        else none)
    → (if (p == ProfileName.power_saver) || saver
        then some ProfileName.power_saver
        else if (p == ProfileName.performance) || performance
        then some ProfileName.performance
        else none)
      ≡ outranking p rest
unfolding profile_beq
outranking-held p saver performance rest e = ground arith

pub effective-demanded : (hs : List Hold) → effective_hold_profile hs ≡ demanded hs
unfolding effective_hold_profile demanded
effective-demanded [] = refl
effective-demanded (h ∷ hs) =
    outranking-held h.profile (is_held ProfileName.power_saver hs)
      (is_held ProfileName.performance hs) (demanded hs) (sym (effective-demanded hs))

pub AreHoldable-retained :
    (q : Hold → Bool) (hs : List Hold) → AreHoldable hs → AreHoldable (retained q hs)
unfolding retained
AreHoldable-retained q [] a = tt
AreHoldable-retained q (h ∷ hs) a = elim (Bool-cases (q h)) [
  | inl e ↦ rw e (AreHoldable-retained q hs a.1)
  | inr e ↦ rw e (a.0, AreHoldable-retained q hs a.1)
]

pub retained-without_ended : (q : Hold → Bool) (hs : List Hold) → retained q hs ≡ without_ended q hs
unfolding retained without_ended
retained-without_ended q [] = refl
retained-without_ended q (h ∷ hs) =
    ap (λ rest. if q h then rest else h ∷ rest) (retained-without_ended q hs)

AreHoldable-without_ended :
    (q : Hold → Bool) (hs : List Hold) → AreHoldable hs → AreHoldable (without_ended q hs)
AreHoldable-without_ended q hs a = rw (← retained-without_ended q hs) (AreHoldable-retained q hs a)

held_performance :
    (h : Hold) (hs : List Hold)
    → IsHoldable h
    → is_held ProfileName.power_saver (h ∷ hs) ≡ false
    → is_held ProfileName.performance (h ∷ hs) ≡ true
unfolding profile_beq
held_performance h hs a e = ground arith

pub effective-holdable :
    (h : Hold) (hs : List Hold)
    → AreHoldable (h ∷ hs)
    → (p : ProfileName) × (effective_hold_profile (h ∷ hs) ≡ some p)
unfolding effective_hold_profile
effective-holdable h hs a = elim (Bool-cases (is_held ProfileName.power_saver (h ∷ hs))) [
  | inl saver ↦ (ProfileName.power_saver, rw saver refl)
  | inr other ↦ (ProfileName.performance, rw other (rw (held_performance h hs a.0 other) refl))
]

pub effective-snoc :
    (hs : List Hold) (h : Hold)
    → AreHoldable hs
    → IsHoldable h
    → (p : ProfileName) × (effective_hold_profile (hs ++ h ∷ []) ≡ some p)
effective-snoc [] h a b = effective-holdable h [] (b, tt)
effective-snoc (x ∷ hs) h a b =
    effective-holdable x (hs ++ h ∷ []) (AreHoldable-snoc (x ∷ hs) h a b)

pub checked_hold-is_holdable :
    (name : String) (sender : Option String) (p : ProfileName) (holder : String)
    → checked_hold name sender ≡ ok (p, holder)
    → is_holdable p ≡ true
unfolding checked_hold
checked_hold-is_holdable name sender p holder e = ground arith

take_hold-AreHoldable :
    (k : HoldStack) (r : Result FdoError (ProfileName × String)) (why app : String)
    → AreHoldable k.holds
    → ((p : ProfileName) (holder : String) → r ≡ ok (p, holder) → is_holdable p ≡ true)
    → AreHoldable (take_hold why app r k).holds
take_hold-AreHoldable k (err e) why app a holdable = a
take_hold-AreHoldable k (ok (p, holder)) why app a holdable =
    AreHoldable-snoc k.holds _ a (holdable p holder refl)

choose-AreHoldable :
    (k : HoldStack) (p : ProfileName)
    → AreHoldable k.holds
    → AreHoldable (choose effective_hold_profile p k).holds
choose-AreHoldable k p a = elim (Bool-cases (is_empty k.holds)) [
  | inl e ↦ rw e a
  | inr e ↦ rw e (elim (Bool-cases (in_force effective_hold_profile k == p)) [
    | inl same ↦ rw same a
    | inr other ↦ rw other tt
  ])
]

choose_named-AreHoldable :
    (k : HoldStack) (r : Result FdoError ProfileName)
    → AreHoldable k.holds
    → AreHoldable (choose_named effective_hold_profile r k).holds
choose_named-AreHoldable k (ok p) a = choose-AreHoldable k p a
choose_named-AreHoldable k (err e) a = a

pub after_event-AreHoldable :
    (e : HoldEvent) (k : HoldStack)
    → AreHoldable k.holds
    → AreHoldable (after_event effective_hold_profile e k).holds
unfolding after_event
after_event-AreHoldable (hold_request name why app sender) k a =
    take_hold-AreHoldable k (checked_hold name sender) why app a
      (checked_hold-is_holdable name sender)
after_event-AreHoldable (release cookie) k a =
    AreHoldable-without_ended (λ h. h.cookie == cookie) k.holds a
after_event-AreHoldable (owner_change (some gone) none) k a =
    AreHoldable-without_ended (λ h. h.holder == gone) k.holds a
after_event-AreHoldable (owner_change (some old) (some new)) k a = a
after_event-AreHoldable (owner_change none new) k a = a
after_event-AreHoldable (property_write value) k a =
    choose_named-AreHoldable k (of_from_str (profile_from_str value)) a
after_event-AreHoldable (manual_change p) k a = choose-AreHoldable k p a
