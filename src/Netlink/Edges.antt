-- ===== src/Netlink/Edges.antt =====
-- The edges that the monitor of hpd-netlink/src/lib.rs sends.
use hpd_handheld_power_daemo.Prelude.{
  refl, true, false, Bool, Bool-cases, inl, inr, ◌≡◌, Option, none, some, arith, nat_eq, string_eq,
  All, List, [], ◌∷◌, ◌++◌,
}
use mathlib.Core.Logic.{◌≢◌}
use hpd_handheld_power_daemo.Core.Transition.{Transition}
use hpd_handheld_power_daemo.Netlink.{
  Phase, Signal, is_known_as, emit_if_changed, after_emit, on_signal, monitor,
}

-- The transitions lead from one known state of the power source to another, each of them to the
-- other state than the one known before it.
abbrev pub Edges : Option Bool → List Transition → Option Bool → Type 0
Edges last [] final = last ≡ final
Edges last (t ∷ ts) final =
    (b : Bool) × (t ≡ Transition.ac_power_changed b) × (last ≢ some b) × Edges (some b) ts final

-- The channel is open whenever the monitor looks.
abbrev pub IsOpen : Signal → Type 0
IsOpen (Signal.built current is_open) = is_open ≡ true
IsOpen (Signal.event current is_open) = is_open ≡ true
IsOpen _ = Unit

Edges-append :
    (last mid final : Option Bool) (ts us : List Transition)
    → Edges last ts mid
    → Edges mid us final
    → Edges last (ts ++ us) final
Edges-append last mid final [] us e f = rw e f
Edges-append last mid final (t ∷ ts) us (b, p, n, rest) f =
    (b, p, n, Edges-append (some b) mid final ts us rest f)

known-as : (b : Bool) (last : Option Bool) → is_known_as b last ≡ false → last ≢ some b
known-as b none e = λ p. cc
known-as b (some l) e = λ p. ground arith

after_emit-Edges :
    (is_open : Bool) (current last : Option Bool)
    → is_open ≡ true
    → let (sent, phase, final) = after_emit (emit_if_changed is_open current last) in
      Edges last sent final
unfolding emit_if_changed
after_emit-Edges is_open none last o = refl
after_emit-Edges is_open (some b) last o = elim (Bool-cases (is_known_as b last)) [
  | inl known ↦ rw known refl
  | inr edge ↦ rw (edge, o) (b, refl, known-as b last edge, refl)
]

on_signal-Edges :
    (phase : Phase) (s : Signal) (last : Option Bool)
    → IsOpen s
    → let (sent, phase', final) = on_signal phase s last in Edges last sent final
unfolding on_signal
on_signal-Edges Phase.building (Signal.built current is_open) last o =
    after_emit-Edges is_open current last o
on_signal-Edges Phase.building (Signal.event current is_open) last o = refl
on_signal-Edges Phase.building Signal.build_failed last o = refl
on_signal-Edges Phase.building Signal.stream_failed last o = refl
on_signal-Edges Phase.listening (Signal.event current is_open) last o =
    after_emit-Edges is_open current last o
on_signal-Edges Phase.listening (Signal.built current is_open) last o = refl
on_signal-Edges Phase.listening Signal.build_failed last o = refl
on_signal-Edges Phase.listening Signal.stream_failed last o = refl
on_signal-Edges Phase.stopped s last o = refl

-- As long as the channel is open, whatever happens to the socket and its stream, the monitor sends
-- only changes of the power source, each to the other state than the one known before it, and what it
-- knows in the end is what it sent last, or what it knew at the start where it sent nothing.
pub monitor-Edges :
    (phase : Phase) (signals : List Signal) (last : Option Bool)
    → All IsOpen signals
    → Edges last (monitor phase signals last).0 (monitor phase signals last).1
unfolding monitor
monitor-Edges phase [] last o = refl
monitor-Edges phase (s ∷ signals) last o =
    let (sent, phase', last') = on_signal phase s last in
    Edges-append last last' _ sent _ (on_signal-Edges phase s last o.0)
      (monitor-Edges phase' signals last' o.1)
