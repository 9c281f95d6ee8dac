-- ===== src/Door/Invariant.antt =====
-- What holds of a door between two events.
use griefly.Prelude.{ℕ, ◌≡◌, ◌⊎◌, List, [], ◌∷◌, true, false, arith}
use griefly.Door.{
  Door, Kind, Event, ticks, attacked, welding_tool, plain, nontransparent, opened, closed, opening,
  closing, welded, full, empty, new, step,
}

-- A door lets things through when it is open and at no other time; an opaque door is seen through
-- from the moment it starts to open to the moment it starts to close; `Process` is called while the
-- door is moving or open, and not while it is shut; the overlay shows whether it is welded.
pub record IsValid (d : Door) : Type 0 where
  pub passable_open : d.state ≡ opened → d.passable_all ≡ full
  pub blocks_shut : (d.state ≡ opened → ⊥) → d.passable_all ≡ empty
  pub glass : d.kind ≡ plain → d.transparent ≡ true
  pub seen_open :
      d.kind ≡ nontransparent → (d.state ≡ opened) ⊎ (d.state ≡ opening) → d.transparent ≡ true
  pub opaque_shut :
      d.kind ≡ nontransparent
      → (d.state ≡ opened → ⊥)
      → (d.state ≡ opening → ⊥)
      → d.transparent ≡ false
  pub resting : (d.state ≡ closed) ⊎ (d.state ≡ welded) → d.freq ≡ 0
  pub running : (d.state ≡ opened) ⊎ (d.state ≡ opening) ⊎ (d.state ≡ closing) → d.freq ≡ 1
  pub overlay_welded : d.state ≡ welded → d.welded_overlay ≡ true
  pub overlay_off : (d.state ≡ welded → ⊥) → d.welded_overlay ≡ false

new-IsValid : (k : Kind) (garbage : ℕ) → IsValid (new k garbage)
unfolding new
new-IsValid k garbage = ground arith

-- Every event keeps a door valid.
step-IsValid : (now : ℕ) (e : Event) (d : Door) → IsValid d → IsValid (step now e d)
unfolding step
step-IsValid now ticks d v = ground arith
step-IsValid now e d v = ground arith

-- A history: the events with their ticks.
pub run : List (ℕ × Event) → Door → Door
run [] d = d
run ((now, e) ∷ es) d = run es (step now e d)

run-IsValid : (es : List (ℕ × Event)) (d : Door) → IsValid d → IsValid (run es d)
unfolding run
run-IsValid [] d v = v
run-IsValid ((now, e) ∷ es) d v = run-IsValid es (step now e d) (step-IsValid now e d v)

-- A new door of either kind is valid after any history of events, whatever its `last_tick` was.
pub run-new-IsValid :
    (k : Kind) (garbage : ℕ) (es : List (ℕ × Event)) → IsValid (run es (new k garbage))
run-new-IsValid k garbage es = run-IsValid es (new k garbage) (new-IsValid k garbage)

-- A welded door stays as it is whatever happens to it, but for a working welding tool, which frees
-- it.
welded_stays :
    (now : ℕ) (e : Event) (d : Door)
    → d.state ≡ welded
    → (step now e d ≡ d) ⊎ (e ≡ attacked (welding_tool true)) × ((step now e d).state ≡ closed)
unfolding step
welded_stays now e d w = ground arith
