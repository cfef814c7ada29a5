-- ===== src/Daemon/Suspend.antt =====
-- hpd-daemon/src/suspend.rs: the monitor of logind's `PrepareForSleep`. What happens to it is given:
-- how each session is set up, and the signals of its stream with the channel at their time.
pub mod Wakes
use mathlib.Core.Path.{subst}
use hpd_handheld_power_daemo.Prelude.{
  refl, sym, ap, ◌∙◌, true, false, not, ◌&&◌, ◌||◌, ltb, leb, Bool, Bool-cases, inl, inr, ℕ, zero,
  suc, ◌+◌, ◌-◌, ◌*◌, ◌/◌, ◌%◌, ◌^◌, ◌≤◌, ◌<◌, ◌≡◌, ◌⊎◌, ◌↔◌, Option, none, some, ok, err, Result,
  ◌>>=◌, ◌>>◌, arith, String, Equality, ◌==◌, ◌!=◌, nat_eq, string_eq, if◌then◌else◌, All, any, all,
  length, is_empty, List, [], ◌∷◌, ◌++◌,
}
use hpd_handheld_power_daemo.Core.Transition.{Transition}

-- Why a session ended.
pub data SessionEnd : Type 0 where
  executor_gone stream_lost setup_failed : SessionEnd

-- `start` where the signal can be decoded.
pub data SleepSignal : Type 0 where
  prepare_for_sleep : Bool → SleepSignal
  undecodable : SleepSignal

-- A signal, and whether the channel is open when it is handled.
pub record Received : Type 0 where
  pub signal : SleepSignal
  pub is_open : Bool

-- A session: its three calls, and the stream up to its end.
pub record LogindSession : Type 0 where
  pub connected : Bool
  pub proxied : Bool
  pub subscribed : Bool
  pub stream : List Received

-- One signal; `rest` is what the loop does after it.
unfoldable pub on_sleep_signal :
    SleepSignal → Bool → SessionEnd × List Transition → SessionEnd × List Transition
on_sleep_signal (SleepSignal.prepare_for_sleep true) is_open rest = rest
on_sleep_signal (SleepSignal.prepare_for_sleep false) true rest =
    (rest.0, Transition.system_resumed ∷ rest.1)
on_sleep_signal (SleepSignal.prepare_for_sleep false) false rest = (SessionEnd.executor_gone, [])
on_sleep_signal SleepSignal.undecodable is_open rest = rest

-- The loop over the stream.
unfoldable pub forward : List Received → SessionEnd × List Transition
forward [] = (SessionEnd.stream_lost, [])
forward (r ∷ rs) = on_sleep_signal r.signal r.is_open (forward rs)

unfoldable pub run_monitor_session : LogindSession → SessionEnd × List Transition
run_monitor_session s =
    if not s.connected
    then (SessionEnd.setup_failed, [])
    else if not s.proxied
    then (SessionEnd.setup_failed, [])
    else if not s.subscribed
    then (SessionEnd.setup_failed, [])
    else forward s.stream

-- After a session, the monitor returns or opens the next one.
unfoldable pub after_session : SessionEnd × List Transition → List Transition → List Transition
after_session (SessionEnd.executor_gone, sent) later = sent
after_session (SessionEnd.stream_lost, sent) later = sent ++ later
after_session (SessionEnd.setup_failed, sent) later = sent ++ later

-- What is sent over the sessions.
unfoldable pub spawn_suspend_monitor : List LogindSession → List Transition
spawn_suspend_monitor [] = []
spawn_suspend_monitor (s ∷ ss) = after_session (run_monitor_session s) (spawn_suspend_monitor ss)
