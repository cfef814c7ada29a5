-- ===== src/Tests/ServiceRuns.antt =====
-- Calls of the setters (hpd-dbus/src/service.rs), a save of the state (hpd-core/src/persistence.rs),
-- and a run of the monitor (hpd-netlink/src/lib.rs).
use hpd_handheld_power_daemo.Prelude.{
  refl, true, false, ◌≡◌, ◌⊎◌, Option, none, some, String, ◌==◌, nat_eq, string_eq, if◌then◌else◌,
  List, [], ◌∷◌,
}
use hpd_handheld_power_daemo.Asus.FanCurve.{rc73xa_fan_curve_constraints}
use hpd_handheld_power_daemo.Core.State.{ProfileState}
use hpd_handheld_power_daemo.Core.Persistence.{
  Files, Calls, save, load, load_content, power_cut, run_ops,
}
use hpd_handheld_power_daemo.Core.Persistence.Crash.{take, load-power_cut}
use hpd_handheld_power_daemo.Dbus.Service.{Interface, Call, Request, handle}
use hpd_handheld_power_daemo.Dbus.Service.Authorization.{Answer, handle-Answer}
use hpd_handheld_power_daemo.Netlink.{Phase, Signal, monitor}
use hpd_handheld_power_daemo.Netlink.Edges.{Edges, monitor-Edges}
use hpd_handheld_power_daemo.Tests.Data.{on_battery}

abbrev interface : Interface
interface = record {
  curve_constraints = some rc73xa_fan_curve_constraints;
  has_gpu_clock = true;
  display = λ e. "error";
}

abbrev administrator : Call
administrator = record { authorized = λ action. true; executor_up = true }

handle-Answer_example :
    Answer interface administrator on_battery
      (handle interface administrator on_battery (Request.set_charge_threshold 80))
handle-Answer_example =
    handle-Answer interface administrator on_battery (Request.set_charge_threshold 80)

abbrev old_file : Files
old_file = record {
  content = λ p. if p == "state.toml" then some "old" else none;
  synced = λ p. p == "state.toml";
}

abbrev all_succeed : Calls
all_succeed = record { created = true; cut_short = none; synced = true; renamed = true }

abbrev read_state : String → Option ProfileState
read_state text = if text == "new" then some on_battery else none

load-power_cut_example :
    let cut =
      power_cut
        (λ p. some "")
        (run_ops (take 2 (save "state.toml" "state.tmp" all_succeed (some "new"))) old_file) in
    (load read_state true "state.toml" cut ≡ load read_state true "state.toml" old_file)
    ⊎ (load read_state true "state.toml" cut ≡ load_content read_state true (some "new"))
load-power_cut_example =
    load-power_cut "state.toml" "state.tmp" refl read_state true (λ p. some "") all_succeed "new" 2
      old_file refl

abbrev unplug_and_reconnect : List Signal
unplug_and_reconnect =
    Signal.built (some true) true
    ∷ Signal.event (some false) true
    ∷ Signal.event (some false) true
    ∷ Signal.stream_failed
    ∷ Signal.built (some true) true
    ∷ []

monitor-Edges_example :
    Edges
      (some true)
      (monitor Phase.building unplug_and_reconnect (some true)).0
      (monitor Phase.building unplug_and_reconnect (some true)).1
monitor-Edges_example =
    monitor-Edges Phase.building unplug_and_reconnect (some true)
      (refl, (refl, (refl, (tt, (refl, tt)))))
