-- ===== src/Daemon/Suspend/Wakes.antt =====
-- Which transitions the monitor of hpd-daemon/src/suspend.rs sends.
use mathlib.Core.Path.{subst}
use hpd_handheld_power_daemo.Prelude.{
  refl, sym, ap, ◌∙◌, true, false, not, ◌&&◌, Bool, Bool-cases, inl, inr, ◌≡◌, arith, nat_eq,
  string_eq, if◌then◌else◌, All, List, [], ◌∷◌, ◌++◌,
}
use hpd_handheld_power_daemo.Core.Transition.{Transition}
use hpd_handheld_power_daemo.Daemon.Suspend.{
  SleepSignal, SessionEnd, Received, LogindSession, on_sleep_signal, forward, run_monitor_session,
  after_session, spawn_suspend_monitor,
}

-- The signals that a monitor that never misses a stream gets.
abbrev pub stream_of : LogindSession → List Received
stream_of s = if s.connected && s.proxied && s.subscribed then s.stream else []

unfoldable pub streams : List LogindSession → List Received
streams [] = []
streams (s ∷ ss) = stream_of s ++ streams ss

abbrev pub is_wake : SleepSignal → Bool
is_wake (SleepSignal.prepare_for_sleep start) = not start
is_wake SleepSignal.undecodable = false

-- One resume for each wake-up.
unfoldable pub resumes : List Received → List Transition
resumes [] = []
resumes (r ∷ rs) = if is_wake r.signal then Transition.system_resumed ∷ resumes rs else resumes rs

abbrev pub IsOpen : List Received → Type 0
IsOpen = All (λ r. r.is_open ≡ true)

resumes-append : (xs ys : List Received) → resumes (xs ++ ys) ≡ resumes xs ++ resumes ys
unfolding resumes
resumes-append [] ys = refl
resumes-append (x ∷ xs) ys = elim (Bool-cases (is_wake x.signal)) [
  | inl e ↦ rw e (ap (λ l. Transition.system_resumed ∷ l) (resumes-append xs ys))
  | inr e ↦ rw e (resumes-append xs ys)
]

on_sleep_signal-open :
    (s : SleepSignal) (is_open : Bool) (later : List Transition)
    → is_open ≡ true
    → on_sleep_signal s is_open (SessionEnd.stream_lost, later)
      ≡ (SessionEnd.stream_lost, if is_wake s then Transition.system_resumed ∷ later else later)
unfolding on_sleep_signal
on_sleep_signal-open (SleepSignal.prepare_for_sleep true) is_open later e = refl
on_sleep_signal-open (SleepSignal.prepare_for_sleep false) is_open later e = rw e refl
on_sleep_signal-open SleepSignal.undecodable is_open later e = refl

forward-open : (rs : List Received) → IsOpen rs → forward rs ≡ (SessionEnd.stream_lost, resumes rs)
unfolding forward resumes
forward-open [] a = refl
forward-open (r ∷ rs) a =
    ap (on_sleep_signal r.signal r.is_open) (forward-open rs a.1)
    ∙ on_sleep_signal-open r.signal r.is_open (resumes rs) a.0

All-append_left : (xs ys : List Received) → IsOpen (xs ++ ys) → IsOpen xs × IsOpen ys
All-append_left [] ys a = (tt, a)
All-append_left (x ∷ xs) ys a = let r = All-append_left xs ys a.1 in ((a.0, r.0), r.1)

run_monitor_session-subscribed :
    (s : LogindSession)
    → run_monitor_session s ≡ (
        if s.connected && s.proxied && s.subscribed
        then forward s.stream
        else (SessionEnd.setup_failed, []))
unfolding run_monitor_session
run_monitor_session-subscribed s = ground arith

run_monitor_session-open :
    (s : LogindSession) (later : List Transition)
    → IsOpen (stream_of s)
    → after_session (run_monitor_session s) later ≡ resumes (stream_of s) ++ later
unfolding after_session resumes
run_monitor_session-open s later a =
    ap (λ r. after_session r later) (run_monitor_session-subscribed s)
    ∙ elim (Bool-cases (s.connected && s.proxied && s.subscribed)) [
      | inl e ↦ rw e (
          ap (λ r. after_session r later)
            (forward-open s.stream (subst (λ b. IsOpen (if b then s.stream else [])) e a)))
      | inr e ↦ rw e refl
    ]

-- As long as the channel is open, the monitor sends one resume for each wake-up of the streams that
-- it could subscribe to, over all its sessions, and nothing else.
pub spawn_suspend_monitor-resumes :
    (ss : List LogindSession)
    → IsOpen (streams ss)
    → spawn_suspend_monitor ss ≡ resumes (streams ss)
unfolding spawn_suspend_monitor streams resumes
spawn_suspend_monitor-resumes [] a = refl
spawn_suspend_monitor-resumes (s ∷ ss) a =
    let r = All-append_left (stream_of s) (streams ss) a in
    ap (after_session (run_monitor_session s)) (spawn_suspend_monitor-resumes ss r.1)
    ∙ run_monitor_session-open s (resumes (streams ss)) r.0
    ∙ sym (resumes-append (stream_of s) (streams ss))
