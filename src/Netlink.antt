-- ===== src/Netlink.antt =====
-- hpd-netlink/src/lib.rs: the monitor of the power source.
pub mod SameSource
pub mod Edges
use Prim.Native.String.{◌++◌}
use hpd_handheld_power_daemo.Prelude.{
  append, bool_eq, refl, sym, ap, ◌∙◌, true, false, not, ◌&&◌, ◌||◌, ltb, leb, Bool, Bool-cases,
  inl, inr, ℕ, zero, suc, ◌+◌, ◌-◌, ◌*◌, ◌/◌, ◌%◌, ◌^◌, ◌≤◌, ◌<◌, ◌≡◌, ◌⊎◌, ◌↔◌, Option, none, some,
  ok, err, Result, ◌>>=◌, ◌>>◌, arith, String, Equality, ◌==◌, ◌!=◌, nat_eq, string_eq,
  if◌then◌else◌, All, any, all, length, is_empty, List, [], ◌∷◌,
}
use hpd_handheld_power_daemo.Text.{trim}
use hpd_handheld_power_daemo.Sysfs.Real.{FileSystem, ErrorKind}
use hpd_handheld_power_daemo.Core.Transition.{Transition}

abbrev pub power_supply_root : String
power_supply_root = "/sys/class/power_supply"

-- `unwrap_or_default` of a text
abbrev pub or_default : Result ErrorKind String → String
or_default (ok s) = s
or_default (err e) = ""

-- `entry.path()` of a directory
abbrev pub entry_path : String → String → String
entry_path base node = base ++ ("/" ++ node)

-- `found_mains` and `any_online`
pub record Mains : Type 0 where
  pub found_mains : Bool
  pub any_online : Bool

abbrev pub then_some : Mains → Option Bool
then_some m = if m.found_mains then some m.any_online else none

module _ {ℓ} {H : Type ℓ} (fs : FileSystem H) where
  abbrev pub is_mains : String → H → Bool
  is_mains node h = trim (or_default (fs.read_to_string (node ++ "/type") h)) == "Mains"

  abbrev pub is_node_online : String → H → Bool
  is_node_online node h = trim (or_default (fs.read_to_string (node ++ "/online") h)) == "1"

  -- One round of the loop over the entries.
  abbrev pub look_at : String → H → Mains → Mains
  look_at node h m =
      if is_mains node h
      then record {
        found_mains = true;
        any_online = if is_node_online node h then true else m.any_online;
      }
      else m

  unfoldable pub look_at_all : String → List String → H → Mains → Mains
  look_at_all base List.[] h m = m
  look_at_all base (List.◌∷◌ node nodes) h m =
      look_at_all base nodes h (look_at (entry_path base node) h m)

  -- The entries, where the directory can be read.
  abbrev pub mains_among : String → Option (List String) → H → Option Bool
  mains_among base none h = none
  mains_among base (some nodes) h =
      then_some (look_at_all base nodes h (record { found_mains = false; any_online = false }))

  unfoldable pub read_mains_online_at : String → H → Option Bool
  read_mains_online_at base h = mains_among base (fs.read_dir base h) h

-- `*last != current`
abbrev pub is_known_as : Bool → Option Bool → Bool
is_known_as b none = false
is_known_as b (some last) = last == b

-- The answer of `emit_if_changed`: whether to go on, what was put in the channel, and `last`. The
-- channel is open or not.
abbrev pub emit_known : Bool → Bool → Option Bool → Bool × List Transition × Option Bool
emit_known is_open b last = if is_known_as b last then (true, List.[], last) else (
  is_open,
  if is_open then List.◌∷◌ (Transition.ac_power_changed b) List.[] else List.[],
  some b,
)

unfoldable pub emit_if_changed :
    Bool → Option Bool → Option Bool → Bool × List Transition × Option Bool
emit_if_changed is_open none last = (true, List.[], last)
emit_if_changed is_open (some b) last = emit_known is_open b last

-- Where `spawn_power_monitor` stands: about to build a socket, waiting for an event, or returned.
pub data Phase : Type 0 where
  building listening stopped : Phase

-- What happens to it, with the reading of the mains nodes and the channel at that moment where it
-- reads them: the socket is built or not, an event arrives, or the stream fails or ends.
pub data Signal : Type 0 where
  built event : Option Bool → Bool → Signal
  build_failed stream_failed : Signal

abbrev pub after_emit : Bool × List Transition × Option Bool → List Transition × Phase × Option Bool
after_emit (true, sent, last) = (sent, Phase.listening, last)
after_emit (false, sent, last) = (sent, Phase.stopped, last)

-- A signal that the phase does not wait for changes nothing.
unfoldable pub on_signal : Phase → Signal → Option Bool → List Transition × Phase × Option Bool
on_signal Phase.building (Signal.built current is_open) last =
    after_emit (emit_if_changed is_open current last)
on_signal Phase.listening (Signal.event current is_open) last =
    after_emit (emit_if_changed is_open current last)
on_signal Phase.listening Signal.stream_failed last = (List.[], Phase.building, last)
on_signal phase _ last = (List.[], phase, last)

-- `spawn_power_monitor`, from the phase and the last known state on: what it sends, and what it knows.
unfoldable pub monitor : Phase → List Signal → Option Bool → List Transition × Option Bool
monitor phase List.[] last = (List.[], last)
monitor phase (List.◌∷◌ s signals) last =
    let (sent, phase', last') = on_signal phase s last in
    let (more, final) = monitor phase' signals last' in (append sent more, final)
