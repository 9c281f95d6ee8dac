-- ===== src/Processor.antt =====
-- The loop over the objects that tick: sources/core/objects/ObjectProcessor.cpp. Whether an object is
-- valid and how often it ticks, and what its Process does, depend on the world: they are parameters.
-- Process may call Add, for the ids that it answers with. `objects_lookup_` is a set.
pub mod Pass
pub mod Calls
use griefly.Prelude.{
  ℕ, zero, suc, ◌+◌, ◌-◌, ◌==◌, Bool, true, false, if◌then◌else◌, Option, none, some, List, [], ◌∷◌,
  ◌++◌, length, take, get_elem?, set,
}
use griefly.Prelude.Int.{ℤ, pos, ◌%ℤ◌, ◌==ℤ◌}

pub record ObjectProcessor : Type 0 where
  pub objects : List ℕ
  pub objects_lookup : ℕ → Bool

abbrev pub nothing_ticks : ObjectProcessor
nothing_ticks = record { objects = []; objects_lookup = λ id. false }

abbrev pub insert : ℕ → (ℕ → Bool) → ℕ → Bool
insert id lookup other = if other == id then true else lookup other

abbrev pub erase : ℕ → (ℕ → Bool) → ℕ → Bool
erase id lookup other = if other == id then false else lookup other

-- Add
unfoldable pub add : ℕ → ObjectProcessor → ObjectProcessor
add id p =
    if p.objects_lookup id
    then p
    else record { objects = p.objects ++ (id ∷ []); objects_lookup = insert id p.objects_lookup }

unfoldable pub add_all : List ℕ → ObjectProcessor → ObjectProcessor
add_all [] p = p
add_all (id ∷ ids) p = add_all ids (add id p)

-- objects_[i] = objects_.last(); objects_.pop_back();
unfoldable pub swap_out : ℕ → List ℕ → List ℕ
swap_out i xs = elim (get_elem? xs (length xs - 1)) [
  | none ↦ xs
  | some last ↦ take (length xs - 1) (set xs i last)
]

abbrev pub drop_object : ℕ → ℕ → ObjectProcessor → ObjectProcessor
drop_object i object p = record {
  objects = swap_out i p.objects;
  objects_lookup = erase object p.objects_lookup;
}

-- LoadObjectsPlaces, from the objects on
pub load_objects_places : List ℕ → (ℕ → Bool) → ℕ → Bool
load_objects_places [] lookup = lookup
load_objects_places (id ∷ ids) lookup = load_objects_places ids (insert id lookup)

-- GetFreq of an object that is valid and ticks at all.
abbrev pub ticking : Option ℤ → Option ℤ
ticking none = none
ticking (some freq) = if freq ==ℤ pos 0 then none else some freq

abbrev pub is_due : ℤ → ℤ → Bool
is_due game_tick freq = (game_tick %ℤ freq) ==ℤ pos 0

module _ {World : Type 0} (freq : World → ℕ → Option ℤ) (process : World → ℕ → World × List ℕ)
    (game_tick : ℤ) where
  -- An object's turn, if it is due.
  unfoldable pub turn : ℕ → ℤ → World → ObjectProcessor → World × ObjectProcessor
  turn object every w p =
      if is_due game_tick every
      then ((process w object).0, add_all (process w object).1 p)
      else (w, p)

  -- RunProcess, the rounds that are left from an index on. An index out of range is `none`.
  unfoldable pub run_from : ℕ → ℕ → World → ObjectProcessor → Option (World × ObjectProcessor)
  run_from zero i w p = some (w, p)
  run_from (suc n) i w p = elim (get_elem? p.objects i) [
    | none ↦ none
    | some object ↦ elim (ticking (freq w object)) [
      | none ↦ some (w, drop_object i object p)
      | some every ↦ run_from n (suc i) (turn object every w p).0 (turn object every w p).1
    ]
  ]

  -- RunProcess
  unfoldable pub run_process : World → ObjectProcessor → Option (World × ObjectProcessor)
  run_process w p = run_from (length p.objects) 0 w p
