-- ===== src/Examples/Ducts.antt =====
-- Pipes: sources/core/objects/movable/Pipes.cpp.
use griefly.Prelude.{
  ℕ, ◌*◌, ◌==◌, ◌≡◌, refl, arith, inl, inr, subst, Bool-cases, true, false, if◌then◌else◌, Option,
  none, some, List, [], ◌∷◌, length,
}
use griefly.Prelude.Int.{pos}
use griefly.Geometry.{Dir}
use griefly.Atmos.Gas.{AtmosData, Quantity, each}
use griefly.Pipes.{PipeBase, pipe, valve, process}
use griefly.Pipes.Balance.{total}
use griefly.Pipes.Flow.{IsPlaced, process_conserves}

abbrev filled : ℕ → AtmosData
filled n = record {
  gases = each (λ i. pos n);
  energy = pos (2 * n);
  pressure = pos 0;
  volume = pos 1;
  temperature = pos 0;
  fire = false;
}

-- A pipe at the edge of the map, whose head is itself, and a closed valve at its tail.
abbrev edge_pipe : PipeBase
edge_pipe = record {
  kind = pipe;
  dir = Dir.west;
  closed = false;
  pump_pressure = pos 38000;
  atmos_holder = 0;
  head = 1;
  tail = 2;
  left = 0;
  right = 0;
  cube = some 2;
  owner = some 2;
  tank = none;
}

abbrev shut_valve : PipeBase
shut_valve = record edge_pipe { kind = valve; closed = true; atmos_holder = 1; head = 1; tail = 0 }

abbrev pipes : ℕ → Option PipeBase
pipes id = if id == 1 then some edge_pipe else if id == 2 then some shut_valve else none

abbrev holders : List AtmosData
holders = filled 101 ∷ filled 20 ∷ filled 7 ∷ []

edge_pipe-IsPlaced : IsPlaced 3 edge_pipe
edge_pipe-IsPlaced = record {
  own_inside = omega arith;
  cube_inside = omega arith;
  owner_inside = omega arith;
  tank_inside = tt;
  has_dir = λ e. grind (arith, e);
}

shut_valve-IsPlaced : IsPlaced 3 shut_valve
shut_valve-IsPlaced = record {
  own_inside = omega arith;
  cube_inside = omega arith;
  owner_inside = omega arith;
  tank_inside = tt;
  has_dir = λ e. grind (arith, e);
}

pipes-IsPlaced : (id : ℕ) (p : PipeBase) → pipes id ≡ some p → IsPlaced 3 p
pipes-IsPlaced id p e = elim (Bool-cases (id == 1)) [
  | inl t ↦
      let same : edge_pipe ≡ p = grind (arith, e, t) in subst (IsPlaced 3) same edge_pipe-IsPlaced
  | inr t ↦ elim (Bool-cases (id == 2)) [
    | inl u ↦
        let same : shut_valve ≡ p = grind (arith, e, t, u) in
        subst (IsPlaced 3) same shut_valve-IsPlaced
    | inr u ↦ absurd (grind (arith, e, t, u))
  ]
]

process_conserves_example :
    (after : List AtmosData) × (process pipes edge_pipe holders ≡ some after)
    × (length after ≡ 3)
    × ((q : Quantity) → total q after ≡ total q holders)
process_conserves_example =
    process_conserves pipes 3 pipes-IsPlaced edge_pipe edge_pipe-IsPlaced holders refl
