-- ===== src/Tile/History.antt =====
-- What can happen to a tile, and what its operations keep: the cached passability and flags.
use griefly.Prelude.{
  ℕ, ◌≡◌, ◌⊎◌, inl, inr, refl, ap, sym, ◌∙◌, Option, none, some, List, [], ◌∷◌, ◌++◌, arith,
}
use griefly.Geometry.{Dir}
use griefly.Tile.{
  Levels, Object, Turf, CubeTile, full_levels, lower, lower_all, lower_by_turf,
  update_atmos_passable, update_passable, set_turf, add_object, remove_object, erase, set_passable,
}

-- What can happen to a tile.
pub data Event : Type 0 where
  adds : Option Object → Event
  removes : Option ℕ → Event
  turf_set : Option Turf → Event
  passable_set : ℕ → Dir → ℕ → Event

unfoldable pub step : Event → CubeTile → CubeTile
step (adds o) t = (add_object o t).0
step (removes id) t = (remove_object id t).0
step (turf_set turf) t = set_turf turf t
step (passable_set id d p) t = set_passable id d p t

pub run : List Event → CubeTile → CubeTile
run [] t = t
run (e ∷ es) t = run es (step e t)

-- The sums are those that UpdatePassable computes.
abbrev pub Cached : CubeTile → Type 0
Cached t = t.sums ≡ lower_all (lower_by_turf full_levels t.turf) t.content

-- So are the flags.
abbrev pub Current : CubeTile → Type 0
Current t = update_atmos_passable t ≡ t

lower_all-append :
    (sums : Levels) (os : List Object) (o : Object)
    → lower_all sums (os ++ (o ∷ [])) ≡ lower (lower_all sums os) o.levels
unfolding lower_all
lower_all-append sums [] o = refl
lower_all-append sums (p ∷ os) o = lower_all-append (lower sums p.levels) os o

update_atmos_passable-Cached : (t : CubeTile) → Cached t → Cached (update_atmos_passable t)
unfolding update_atmos_passable
update_atmos_passable-Cached t h = h

pub update_passable-Cached : (t : CubeTile) → Cached (update_passable t)
unfolding update_passable
update_passable-Cached t = update_atmos_passable-Cached _ refl

-- The three branches of RemoveObject.
remove_object_cases :
    (id : ℕ) (t : CubeTile)
    → ((remove_object (some id) t).0 ≡ set_turf none t)
      ⊎ ((remove_object (some id) t).0
          ≡ update_passable (record t { content = erase id t.content }))
      ⊎ ((remove_object (some id) t).0 ≡ t)
unfolding remove_object
remove_object_cases id t = ground arith

step-Cached : (e : Event) (t : CubeTile) → Cached t → Cached (step e t)
unfolding step add_object set_turf set_passable remove_object
step-Cached (adds none) t h = h
step-Cached (adds (some o)) t h =
    update_atmos_passable-Cached _
      (ap (λ l. lower l o.levels) h ∙ sym (lower_all-append _ t.content o))
step-Cached (removes none) t h = h
step-Cached (removes (some id)) t h = elim (remove_object_cases id t) [
  | inl e ↦ rw e (update_passable-Cached _)
  | inr (inl e) ↦ rw e (update_passable-Cached _)
  | inr (inr e) ↦ rw e h
]
step-Cached (turf_set turf) t h = update_passable-Cached _
step-Cached (passable_set id d p) t h = update_passable-Cached _

update_atmos_passable-Current : (t : CubeTile) → Current (update_atmos_passable t)
unfolding update_atmos_passable
update_atmos_passable-Current t = refl

pub update_passable-Current : (t : CubeTile) → Current (update_passable t)
unfolding update_passable
update_passable-Current t = update_atmos_passable-Current _

step-Current : (e : Event) (t : CubeTile) → Current t → Current (step e t)
unfolding step add_object set_turf set_passable remove_object
step-Current (adds none) t h = h
step-Current (adds (some o)) t h = update_atmos_passable-Current _
step-Current (removes none) t h = h
step-Current (removes (some id)) t h = elim (remove_object_cases id t) [
  | inl e ↦ rw e (update_passable-Current _)
  | inr (inl e) ↦ rw e (update_passable-Current _)
  | inr (inr e) ↦ rw e h
]
step-Current (turf_set turf) t h = update_passable-Current _
step-Current (passable_set id d p) t h = update_passable-Current _

pub run-Cached : (es : List Event) (t : CubeTile) → Cached t → Cached (run es t)
unfolding run
run-Cached [] t h = h
run-Cached (e ∷ es) t h = run-Cached es (step e t) (step-Cached e t h)

pub run-Current : (es : List Event) (t : CubeTile) → Current t → Current (run es t)
unfolding run
run-Current [] t h = h
run-Current (e ∷ es) t h = run-Current es (step e t) (step-Current e t h)
