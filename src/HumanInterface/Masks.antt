-- ===== src/HumanInterface/Masks.antt =====
-- The tie between a gas mask and a tank: Human::InterfaceChanges of sources/core/objects/mobs/Human.cpp
-- and HandGasTank::AttackBy of sources/core/objects/movable/items/HandGasTank.cpp, with the fields of
-- Masks.h and HandGasTank.h beside it.
pub mod Mutual
use griefly.Prelude.{
  ℕ, zero, suc, ◌≡◌, ◌≢◌, refl, sym, ap, ◌∙◌, ◌↔◌, ◌⊎◌, inl, inr, Bool, true, false, not, ◌&&◌,
  ◌==◌, if◌then◌else◌, List, [], ◌∷◌, arith, Bool-cases,
}

-- What the conversion of an IdPtr to a class finds.
pub data ItemKind : Type 0 where
  gas_mask hand_gas_tank another : ItemKind

pub record Classes : Type 0 where
  pub is_alive : ℕ → Bool
  pub kind_of : ℕ → ItemKind

-- gas_tank_ of each mask and gas_mask_ of each tank, by ids
pub record Ties : Type 0 where
  pub gas_tank : ℕ → ℕ
  pub gas_mask : ℕ → ℕ

unfoldable pub at_id : ℕ → ℕ → (ℕ → ℕ) → ℕ → ℕ
at_id id value f x = if x == id then value else f x

abbrev pub set_gas_tank : ℕ → ℕ → Ties → Ties
set_gas_tank mask tank t = record t { gas_tank = at_id mask tank t.gas_tank }

abbrev pub set_gas_mask : ℕ → ℕ → Ties → Ties
set_gas_mask tank mask t = record t { gas_mask = at_id tank mask t.gas_mask }

pub data Event : Type 0 where
  -- InterfaceChanges of what was in a slot
  leaves_slot : ℕ → Event
  -- AttackBy of a tank with a hand
  is_clicked : ℕ → ℕ → Event

-- The constructors of GasMask and HandGasTank.
abbrev pub untied : Ties
untied = record { gas_tank = λ _. 0; gas_mask = λ _. 0 }

module _ (classes : Classes) where
  abbrev is_alive_id : ℕ → Bool
  is_alive_id zero = false
  is_alive_id (suc id) = classes.is_alive (suc id)

  abbrev is_kind : ItemKind → ItemKind → Bool
  is_kind gas_mask gas_mask = true
  is_kind hand_gas_tank hand_gas_tank = true
  is_kind _ _ = false

  unfoldable pub as_mask : ℕ → Bool
  as_mask id = is_alive_id id && is_kind ItemKind.gas_mask (classes.kind_of id)

  unfoldable pub as_tank : ℕ → Bool
  as_tank id = is_alive_id id && is_kind ItemKind.hand_gas_tank (classes.kind_of id)

  -- The two assignments that untie a mask and a tank.
  abbrev pub untie : ℕ → ℕ → Ties → Ties
  untie mask tank t = set_gas_tank mask 0 (set_gas_mask tank 0 t)

  -- InterfaceChanges
  unfoldable pub interface_changes : ℕ → Ties → Ties
  interface_changes item t =
      if as_mask item
      then (if as_tank (t.gas_tank item) then untie item (t.gas_tank item) t else t)
      else if as_tank item
      then (if as_mask (t.gas_mask item) then untie (t.gas_mask item) item t else t)
      else t

  -- The old tank of a mask forgets it.
  unfoldable pub free_tank : ℕ → Ties → Ties
  free_tank mask t = if as_tank (t.gas_tank mask) then set_gas_mask (t.gas_tank mask) 0 t else t

  -- The part of AttackBy that ties a tank to the mask that its owner wears.
  unfoldable pub tie : ℕ → ℕ → Ties → Ties
  tie tank mask t =
      let freed = free_tank mask t in
      let old_mask = freed.gas_mask tank in
      let alone = if as_mask old_mask then set_gas_tank old_mask 0 freed else freed in
      set_gas_mask tank mask (set_gas_tank mask tank alone)

  -- HandGasTank::AttackBy with a hand; `worn` is what the owner's slot of the mask holds, where the
  -- owner is a human, and 0 otherwise.
  unfoldable pub click_tank : ℕ → ℕ → Ties → Ties
  click_tank tank worn t =
      if as_mask (t.gas_mask tank)
      then untie (t.gas_mask tank) tank t
      else if as_mask worn
      then tie tank worn t
      else t

  -- A living mask leads to a living tank exactly if the tank leads to the mask.
  unfoldable pub IsMutual : Ties → Type 0
  IsMutual t =
      (mask tank : ℕ)
      → as_mask mask ≡ true
      → as_tank tank ≡ true
      → (t.gas_tank mask ≡ tank) ↔ (t.gas_mask tank ≡ mask)

  -- AttackBy is called on a living tank.
  abbrev pub step : Event → Ties → Ties
  step (leaves_slot item) t = interface_changes item t
  step (is_clicked tank worn) t = if as_tank tank then click_tank tank worn t else t

  unfoldable pub run : List Event → Ties → Ties
  run [] t = t
  run (e ∷ es) t = run es (step e t)
