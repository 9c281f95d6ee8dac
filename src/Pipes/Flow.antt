-- ===== src/Pipes/Flow.antt =====
-- What Process of a pipe does to the gas.
use griefly.Prelude.{
  ℕ, ◌<◌, ◌≡◌, ◌≢◌, refl, sym, subst, ◌∙◌, inl, inr, arith, Bool, Bool-cases, true, false,
  if◌then◌else◌, Option, Option-cases, none, some, List, length,
}
use griefly.Prelude.Int.{pos, leb_ℤ}
use griefly.Geometry.{Dir, revert_dir}
use griefly.Atmos.Gas.{AtmosData, Quantity, max_gas_level}
use griefly.Objects.{◌>>=◌}
use griefly.Pipes.{
  Kind, PipeBase, attack_by, base, pipe, manifold, valve, vent, connector, pump, can_transfer_gas,
  get_tail_and_head, connect_with, process_helper, process_pipe, process_manifold, head_connection,
  pump_into, process_pump, process_valve, process_vent, process_connector, process_as, process,
}
use griefly.Pipes.Balance.{
  total, Conserves, Conserves-some, Conserves-bind, present, connect_at-Conserves,
  connect_with-Conserves, Inside,
}

-- A pipe whose holders are in the list, and which has a direction.
pub record IsPlaced (n : ℕ) (p : PipeBase) : Type 0 where
  pub own_inside : p.atmos_holder < n
  pub cube_inside : Inside n p.cube
  pub owner_inside : Inside n p.owner
  pub tank_inside : Inside n p.tank
  pub has_dir : p.dir ≢ Dir.all

module _ (pipes : ℕ → Option PipeBase) (n : ℕ)
    (all_placed : (id : ℕ) (p : PipeBase) → pipes id ≡ some p → IsPlaced n p) (p : PipeBase)
    (placed : IsPlaced n p) where
  helper_gone :
      (connection : ℕ) (dir : Dir) (holders : List AtmosData)
      → pipes connection ≡ none
      → process_helper pipes p connection dir holders ≡ connect_with p.cube p.atmos_holder holders
  unfolding process_helper
  helper_gone connection dir holders e = grind (arith, e)

  helper_there :
      (connection : ℕ) (dir : Dir) (holders : List AtmosData) (other : PipeBase)
      → pipes connection ≡ some other
      → process_helper pipes p connection dir holders ≡ (
          if can_transfer_gas other (revert_dir dir)
          then connect_with (some other.atmos_holder) p.atmos_holder holders
          else some holders)
  unfolding process_helper
  helper_there connection dir holders other e = grind (arith, e)

  own : (holders : List AtmosData) → length holders ≡ n → p.atmos_holder < length holders
  own holders size = omega (arith, size, placed.own_inside)

  with-Conserves :
      (o : Option ℕ) (holders : List AtmosData)
      → length holders ≡ n
      → Inside n o
      → Conserves holders (connect_with o p.atmos_holder holders)
  with-Conserves o holders size inside =
      connect_with-Conserves o p.atmos_holder holders (subst (λ m. Inside m o) (sym size) inside)
        (own holders size)

  gated-Conserves :
      (b : Bool) (o : Option ℕ) (holders : List AtmosData)
      → length holders ≡ n
      → Inside n o
      → Conserves holders (if b then connect_with o p.atmos_holder holders else some holders)
  gated-Conserves true o holders size inside = with-Conserves o holders size inside
  gated-Conserves false o holders size inside = Conserves-some holders

  process_helper-Conserves :
      (connection : ℕ) (dir : Dir) (holders : List AtmosData)
      → length holders ≡ n
      → Conserves holders (process_helper pipes p connection dir holders)
  process_helper-Conserves connection dir holders size = elim (Option-cases (pipes connection)) [
    | inl gone ↦
        subst (Conserves holders) (sym (helper_gone connection dir holders gone))
          (with-Conserves p.cube holders size placed.cube_inside)
    | inr (other, found) ↦
        subst (Conserves holders) (sym (helper_there connection dir holders other found)) (
          gated-Conserves (can_transfer_gas other (revert_dir dir)) (some other.atmos_holder)
            holders size (all_placed connection other found).own_inside)
  ]

  -- The directions of a pipe are found for every direction that it has.
  tail_and_head :
      (dir : Dir) → dir ≢ Dir.all → (ends : Dir × Dir) × (get_tail_and_head dir ≡ some ends)
  unfolding get_tail_and_head
  tail_and_head Dir.all h = absurd (h refl)
  tail_and_head Dir.west h = (_, refl)
  tail_and_head Dir.east h = (_, refl)
  tail_and_head Dir.north h = (_, refl)
  tail_and_head Dir.south h = (_, refl)
  tail_and_head Dir.up h = (_, refl)
  tail_and_head Dir.down h = (_, refl)
  tail_and_head Dir.southeast h = (_, refl)
  tail_and_head Dir.southwest h = (_, refl)
  tail_and_head Dir.northeast h = (_, refl)
  tail_and_head Dir.northwest h = (_, refl)

  process_pipe-Conserves :
      (holders : List AtmosData)
      → length holders ≡ n
      → Conserves holders (process_pipe pipes p holders)
  unfolding process_pipe
  process_pipe-Conserves holders size =
      let (ends, found) = tail_and_head p.dir placed.has_dir in
      subst
        (λ o. Conserves holders (
          o >>= λ ends.
          process_helper pipes p p.head ends.0 holders >>= process_helper pipes p p.tail ends.1))
        (sym found)
        (Conserves-bind holders _ _ (process_helper-Conserves p.head ends.0 holders size)
          (λ mid l. process_helper-Conserves p.tail ends.1 mid (l ∙ size)))

  process_manifold-Conserves :
      (holders : List AtmosData)
      → length holders ≡ n
      → Conserves holders (process_manifold pipes p holders)
  unfolding process_manifold
  process_manifold-Conserves holders size =
      Conserves-bind holders _ _ (process_helper-Conserves p.tail (revert_dir p.dir) holders size)
        (λ mid l.
          Conserves-bind mid _ _ (process_helper-Conserves p.left _ mid (l ∙ size))
            (λ late m. process_helper-Conserves p.right _ late (m ∙ l ∙ size)))

  pump_into-Conserves :
      (i : ℕ) (holders : List AtmosData)
      → length holders ≡ n
      → i < n
      → Conserves holders (pump_into pipes p i holders)
  unfolding pump_into
  pump_into-Conserves i holders size inside =
      let (d, found) = present holders i (omega (arith, size)) in
      elim (Bool-cases (leb_ℤ p.pump_pressure d.pressure)) [
        | inl t ↦ subst (Conserves holders) (sym (rw found (rw t refl))) (Conserves-some holders)
        | inr t ↦ subst (Conserves holders) (sym (rw found (rw t refl))) (
            connect_at-Conserves max_gas_level (pos 250) max_gas_level i p.atmos_holder holders
              (omega (arith, size)) (own holders size))
      ]

  head_inside : (i : ℕ) → head_connection pipes p ≡ some i → i < n
  unfolding head_connection
  head_inside i e = elim (Option-cases (pipes p.head)) [
    | inl gone ↦
        let found : p.cube ≡ some i = grind (arith, e, gone) in
        subst (Inside n) found placed.cube_inside
    | inr (other, found) ↦ grind (arith, e, found, (all_placed p.head other found).own_inside)
  ]

  pump_end-Conserves :
      (o : Option ℕ) (holders : List AtmosData)
      → ((i : ℕ) → o ≡ some i → i < n)
      → length holders ≡ n
      → Conserves holders (elim o [ none ↦ some holders | some i ↦ pump_into pipes p i holders ])
  pump_end-Conserves none holders inside size = Conserves-some holders
  pump_end-Conserves (some i) holders inside size =
      pump_into-Conserves i holders size (inside i refl)

  process_pump-Conserves :
      (holders : List AtmosData)
      → length holders ≡ n
      → Conserves holders (process_pump pipes p holders)
  unfolding process_pump
  process_pump-Conserves holders size =
      let (ends, found) = tail_and_head p.dir placed.has_dir in
      subst
        (λ o. Conserves holders (
          o >>= λ ends. process_helper pipes p p.tail ends.1 holders >>= λ after_tail.
          elim (head_connection pipes p) [
            | none ↦ some after_tail
            | some i ↦ pump_into pipes p i after_tail
          ]))
        (sym found)
        (Conserves-bind holders _ _ (process_helper-Conserves p.tail ends.1 holders size)
          (λ mid l. pump_end-Conserves (head_connection pipes p) mid head_inside (l ∙ size)))

  valve_end-Conserves :
      (closed : Bool) (holders : List AtmosData)
      → length holders ≡ n
      → Conserves holders (if closed then some holders else process_pipe pipes p holders)
  valve_end-Conserves true holders size = Conserves-some holders
  valve_end-Conserves false holders size = process_pipe-Conserves holders size

  process_as-Conserves :
      (holders : List AtmosData) (kind : Kind)
      → length holders ≡ n
      → Conserves holders (process_as pipes kind p holders)
  unfolding process_as process_valve process_vent process_connector
  process_as-Conserves holders base size = Conserves-some holders
  process_as-Conserves holders pipe size = process_pipe-Conserves holders size
  process_as-Conserves holders manifold size = process_manifold-Conserves holders size
  process_as-Conserves holders valve size = valve_end-Conserves p.closed holders size
  process_as-Conserves holders vent size =
      Conserves-bind holders _ _ (process_helper-Conserves p.tail p.dir holders size)
        (λ mid l. with-Conserves p.owner mid (l ∙ size) placed.owner_inside)
  process_as-Conserves holders connector size =
      Conserves-bind holders _ _ (process_helper-Conserves p.tail p.dir holders size)
        (λ mid l. with-Conserves p.tank mid (l ∙ size) placed.tank_inside)
  process_as-Conserves holders pump size = process_pump-Conserves holders size

  -- For pipes that have a direction and whose holders are in the list Process of every class comes through, with no access
  -- outside, and all holders together have of each gas and of energy what they had, also
  -- when connections lead back to the pipe itself or several pipes share a tile.
  pub process_conserves :
      (holders : List AtmosData)
      → length holders ≡ n
      → (after : List AtmosData) × (process pipes p holders ≡ some after)
        × (length after ≡ length holders)
        × ((q : Quantity) → total q after ≡ total q holders)
  unfolding process
  process_conserves holders size = process_as-Conserves holders p.kind size

-- A closed valve is shut both ways: its own Process leaves every holder as it is, and so does ProcessHelper
-- of any pipe towards it. When it is hit it opens, and passes gas in every direction.
closed_valve :
    (pipes : ℕ → Option PipeBase) (v p : PipeBase) (id : ℕ) (dir : Dir) (holders : List AtmosData)
    → v.kind ≡ valve
    → v.closed ≡ true
    → pipes id ≡ some v
    → (process pipes v holders ≡ some holders)
      × (process_helper pipes p id dir holders ≡ some holders)
      × (can_transfer_gas (attack_by v) dir ≡ true)
unfolding process process_as process_valve process_helper can_transfer_gas attack_by
closed_valve pipes v p id dir holders kind closed found =
    (rw kind (rw closed refl), grind (arith, kind, closed, found), rw kind (rw closed refl))
