-- ===== src/Tile/Passing.antt =====
-- What passes a tile is what passes everything that stands on it, whatever has happened to the tile.
use griefly.Prelude.{
  ℕ, ◌≤◌, ◌≡◌, refl, ◌∙◌, Bool, true, false, ◌&&◌, Option, none, some, List, [], ◌∷◌, arith,
}
use griefly.Geometry.{Dir}
use griefly.Tile.{
  can_pass, full, Levels, Object, Turf, CubeTile, get_passable, new_tile, full_levels, lower,
  lower_all, lower_by_turf,
}
use griefly.Tile.History.{Event, run, Cached, run-Cached}

-- Everything in a list lets an object of a level pass.
abbrev pub all_let : Dir → ℕ → List Object → Bool
all_let d n [] = true
all_let d n (o ∷ os) = can_pass (get_passable d o.levels) n && all_let d n os

abbrev pub turf_lets : Dir → ℕ → Option Turf → Bool
turf_lets d n none = true
turf_lets d n (some t) = can_pass (get_passable d t.object.levels) n

-- Everything on the tile does.
abbrev pub everything_lets : Dir → ℕ → CubeTile → Bool
everything_lets d n t = turf_lets d n t.turf && all_let d n t.content

lower_lets :
    (d : Dir) (n : ℕ) (a b : Levels)
    → n ≤ full
    → can_pass (get_passable d (lower a b)) n
      ≡ can_pass (get_passable d a) n && can_pass (get_passable d b) n
unfolding lower get_passable
lower_lets d n a b h = ground arith

and_assoc : (a b c : Bool) → ((a && b) && c) ≡ (a && (b && c))
and_assoc true b c = refl
and_assoc false b c = refl

lower_all_lets :
    (d : Dir) (n : ℕ) (sums : Levels) (os : List Object)
    → n ≤ full
    → can_pass (get_passable d (lower_all sums os)) n
      ≡ can_pass (get_passable d sums) n && all_let d n os
unfolding lower_all
lower_all_lets d n sums [] h = ground arith
lower_all_lets d n sums (o ∷ os) h =
    lower_all_lets d n (lower sums o.levels) os h
    ∙ rw (lower_lets d n sums o.levels h) (
        and_assoc (can_pass (get_passable d sums) n) (can_pass (get_passable d o.levels) n)
          (all_let d n os))

full_lets : (d : Dir) (n : ℕ) → n ≤ full → can_pass (get_passable d full_levels) n ≡ true
unfolding get_passable
full_lets d n h = ground arith

turf_lower_lets :
    (d : Dir) (n : ℕ) (turf : Option Turf)
    → n ≤ full
    → can_pass (get_passable d (lower_by_turf full_levels turf)) n ≡ turf_lets d n turf
turf_lower_lets d n none h = full_lets d n h
turf_lower_lets d n (some t) h =
    lower_lets d n full_levels t.object.levels h ∙ rw (full_lets d n h) refl

pub Cached-lets :
    (d : Dir) (n : ℕ) (t : CubeTile)
    → Cached t
    → n ≤ full
    → can_pass (get_passable d t.sums) n ≡ everything_lets d n t
Cached-lets d n t c h =
    rw c (lower_all_lets d n _ t.content h ∙ rw (turf_lower_lets d n t.turf h) refl)

new_tile-Cached : (flags : ℕ) → Cached (new_tile flags)
unfolding new_tile lower_all
new_tile-Cached flags = refl

-- After any history of a new tile the passability that it keeps, in its middle and in
-- every direction, lets an object of a level up to FULL pass exactly when the turf and every object
-- on the tile let it pass.
pub get_passable_exact :
    (flags : ℕ) (es : List Event) (d : Dir) (n : ℕ)
    → n ≤ full
    → let t = run es (new_tile flags) in can_pass (get_passable d t.sums) n ≡ everything_lets d n t
get_passable_exact flags es d n h =
    Cached-lets d n (run es (new_tile flags)) (run-Cached es _ (new_tile-Cached flags)) h
