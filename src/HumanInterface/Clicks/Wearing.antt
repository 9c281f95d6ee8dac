-- ===== src/HumanInterface/Clicks/Wearing.antt =====
-- What a human wears stays what it was, and where it may be, under clicks.
use griefly.Prelude.{
  ℕ, zero, suc, ◌+◌, ◌≤◌, ◌≡◌, ◌≢◌, refl, sym, ap, ◌∙◌, ◌⊎◌, inl, inr, Bool, true, false,
  if◌then◌else◌, some, List, [], ◌∷◌, All, arith, Bool-cases, ==→≡,
}
use mathlib.Core.Option.{some-injective}
use griefly.HumanInterface.Slots.{
  SlotName, Slot, HumanInterface, Items, Done, same_name, is_type_match, get_slot, put_item,
  active_hand_name, get_active_hand, is_valid_item, apply_hand, apply_active_hand_on_slot, take_out,
}
use griefly.HumanInterface.Slots.Counting.{
  occurs, count, put_item-count, put_item-other, put_item-found, Fits, put_item-Fits,
  take_out-count, take_out-Fits, take_out-found, take_out-some,
}
use griefly.HumanInterface.Clicks.{own}

same_name-get_slot :
    (a b : SlotName) (slots : List Slot)
    → same_name a b ≡ true
    → get_slot a slots ≡ get_slot b slots
unfolding same_name
same_name-get_slot a b [] e = refl
same_name-get_slot a b (slot ∷ slots) e = rw (==→≡ _ _ e) (rw (same_name-get_slot a b slots e) refl)

occurs_self : (a : ℕ) → occurs a a ≡ 1
occurs_self a = ground arith

module _ (items : Items) where
  -- The assignments that move the item of one slot to another.
  abbrev moved : SlotName → SlotName → Slot → List Slot → List Slot
  moved from to held slots = put_item from 0 (put_item to held.item slots)

  valid-zero : (id : ℕ) → is_valid_item items id ≡ true → id ≢ 0
  valid-zero zero e = grind arith
  valid-zero (suc id) e = omega arith

  apart :
      (from to : SlotName) (held room : Slot) (slots : List Slot)
      → get_slot from slots ≡ some held
      → get_slot to slots ≡ some room
      → is_valid_item items held.item ≡ true
      → is_valid_item items room.item ≡ false
      → same_name from to ≡ false
  apart from to held room slots f t v nv = elim (Bool-cases (same_name from to)) [
    | inl same ↦
        let one = some-injective held room (sym f ∙ same_name-get_slot from to slots same ∙ t) in
        let both = sym v ∙ ap (λ s. is_valid_item items s.item) one ∙ nv in
        absurd (grind (arith, both))
    | inr other ↦ other
  ]

  -- A move keeps every living item as often as it was there.
  moved-count :
      (from to : SlotName) (held room : Slot) (slots : List Slot) (id : ℕ)
      → get_slot from slots ≡ some held
      → get_slot to slots ≡ some room
      → is_valid_item items held.item ≡ true
      → is_valid_item items room.item ≡ false
      → is_valid_item items id ≡ true
      → count id (moved from to held slots) ≡ count id slots
  moved-count from to held room slots id f t v nv i =
      let away = put_item-other from to held.item slots (apart from to held room slots f t v nv) in
      let first = put_item-count to held.item id slots room t in
      let second = put_item-count from 0 id (put_item to held.item slots) held (away ∙ f) in
      let nz = valid-zero id i in
      let ne : room.item ≢ id = λ e. absurd (grind (arith, ap (is_valid_item items) e)) in
      grind (arith, first, second, nz, ne)

  none-Fits : (s : Slot) → Fits items (record s { item = 0 })
  none-Fits s e = grind arith

  moved-Fits :
      (from to : SlotName) (held room : Slot) (slots : List Slot)
      → get_slot from slots ≡ some held
      → get_slot to slots ≡ some room
      → is_valid_item items held.item ≡ true
      → is_valid_item items room.item ≡ false
      → is_type_match room.type (items.type_of held.item) ≡ true
      → All (Fits items) slots
      → All (Fits items) (moved from to held slots)
  moved-Fits from to held room slots f t v nv m all =
      let away = put_item-other from to held.item slots (apart from to held room slots f t v nv) in
      put_item-Fits items from 0 _ held (away ∙ f) (none-Fits held)
        (put_item-Fits items to held.item slots room t (λ _. m) all)

  -- The slots of a wearer: each name has one, each living item is where it fits, and is in no two.
  pub record AreWorn (mine : ℕ → Bool) (slots : List Slot) : Type 0 where
    pub found : (name : SlotName) → (s : Slot) × (get_slot name slots ≡ some s)
    pub fits : All (Fits items) slots
    pub single :
        (id : ℕ) → is_valid_item items id ≡ true → count id slots ≤ (if mine id then 1 else 0)

  moved-AreWorn :
      (mine : ℕ → Bool) (from to : SlotName) (held room : Slot) (slots : List Slot)
      → get_slot from slots ≡ some held
      → get_slot to slots ≡ some room
      → is_valid_item items held.item ≡ true
      → is_valid_item items room.item ≡ false
      → is_type_match room.type (items.type_of held.item) ≡ true
      → AreWorn mine slots
      → AreWorn mine (moved from to held slots)
  moved-AreWorn mine from to held room slots f t v nv m w = record {
    found = λ name.
        let s = w.found name in
        let once = put_item-found name to held.item slots s.0 s.1 in
        let twice = put_item-found name from 0 _ once.0 once.1 in (twice.0, twice.1);
    fits = moved-Fits from to held room slots f t v nv m w.fits;
    single =
        λ id i. omega (arith, moved-count from to held room slots id f t v nv i, w.single id i);
  }

  apply_hand-AreWorn :
      (mine : ℕ → Bool) (hand : ℕ) (name : SlotName) (active slot : Slot) (i : HumanInterface)
      → get_active_hand i ≡ some active
      → get_slot name i.slots ≡ some slot
      → AreWorn mine i.slots
      → AreWorn mine (apply_hand items hand name active slot i).interface.slots
  unfolding apply_hand
  apply_hand-AreWorn mine hand name active slot i a s w =
      let active_name = active_hand_name i.active_hand in
      elim (Bool-cases (is_valid_item items active.item)) [
        | inl full ↦ elim (Bool-cases (is_valid_item items slot.item)) [
          | inl taken ↦ rw full (rw taken w)
          | inr free ↦ elim (Bool-cases (is_type_match slot.type (items.type_of active.item))) [
            | inl fit ↦ rw full (
                rw free (
                  rw fit
                    (moved-AreWorn mine active_name name active slot i.slots a s full free fit w)))
            | inr unfit ↦ rw full (rw free (rw unfit w))
          ]
        ]
        | inr empty ↦ elim (Bool-cases (is_valid_item items slot.item)) [
          | inl taken ↦ elim (Bool-cases (is_type_match active.type (items.type_of slot.item))) [
            | inl fit ↦ rw empty (
                rw taken (
                  rw fit (
                    moved-AreWorn mine name active_name slot active i.slots s a taken empty fit w)))
            | inr unfit ↦ rw empty (rw taken (rw unfit w))
          ]
          | inr free ↦ rw empty (rw free w)
        ]
      ]

  apply_hand-hands :
      (hand : ℕ) (name : SlotName) (active slot : Slot) (i : HumanInterface)
      → let j = (apply_hand items hand name active slot i).interface in
        (j.active_hand ≡ i.active_hand) × (j.swap_shows_right ≡ i.swap_shows_right)
  unfolding apply_hand
  apply_hand-hands hand name active slot i = (grind arith, grind arith)

  pub on_slot-AreWorn :
      (mine : ℕ → Bool) (hand : ℕ) (name : SlotName) (i : HumanInterface)
      → AreWorn mine i.slots
      → (d : Done) × (apply_active_hand_on_slot items hand name i ≡ some d)
        × AreWorn mine d.interface.slots
        × (d.interface.active_hand ≡ i.active_hand)
        × (d.interface.swap_shows_right ≡ i.swap_shows_right)
  unfolding apply_active_hand_on_slot
  on_slot-AreWorn mine hand name i w =
      let active = w.found (active_hand_name i.active_hand) in
      let slot = w.found name in
      let hands = apply_hand-hands hand name active.0 slot.0 i in
      (
        apply_hand items hand name active.0 slot.0 i,
        rw active.1 (rw slot.1 refl),
        apply_hand-AreWorn mine hand name active.0 slot.0 i active.1 slot.1 w,
        hands.0,
        hands.1,
      )

  pub emptied-AreWorn :
      (mine later : ℕ → Bool) (name : SlotName) (s : Slot) (slots : List Slot)
      → get_slot name slots ≡ some s
      → ((id : ℕ) → (id ≡ s.item) ⊎ (later id ≡ mine id))
      → AreWorn mine slots
      → AreWorn later (put_item name 0 slots)
  emptied-AreWorn mine later name s slots e h w = record {
    found = λ n. let t = w.found n in let u = put_item-found n name 0 slots t.0 t.1 in (u.0, u.1);
    fits = put_item-Fits items name 0 slots s e (none-Fits s) w.fits;
    single = λ id i.
        grind (arith, put_item-count name 0 id slots s e, w.single id i, valid-zero id i, h id);
  }

  filled-found :
      (mine : ℕ → Bool) (name n : SlotName) (v : ℕ) (slots : List Slot)
      → AreWorn mine slots
      → (s : Slot) × (get_slot n (put_item name v slots) ≡ some s)
  filled-found mine name n v slots w =
      let t = w.found n in let u = put_item-found n name v slots t.0 t.1 in (u.0, u.1)

  filled-count :
      (name : SlotName) (s : Slot) (v id : ℕ) (slots : List Slot)
      → get_slot name slots ≡ some s
      → is_valid_item items s.item ≡ false
      → is_valid_item items id ≡ true
      → count id (put_item name v slots) ≡ count id slots + occurs v id
  filled-count name s v id slots e nv i =
      let ne : s.item ≢ id = λ x. absurd (grind (arith, ap (is_valid_item items) x)) in
      grind (arith, put_item-count name v id slots s e, ne)

  -- An item of another owner, put where it fits, is the human's then.
  pub filled-AreWorn :
      (mine : ℕ → Bool) (name : SlotName) (s : Slot) (v : ℕ) (slots : List Slot)
      → get_slot name slots ≡ some s
      → is_valid_item items s.item ≡ false
      → is_type_match s.type (items.type_of v) ≡ true
      → mine v ≡ false
      → AreWorn mine slots
      → AreWorn (own v true mine) (put_item name v slots)
  unfolding own
  filled-AreWorn mine name s v slots e nv m o w = record {
    found = λ n. filled-found mine name n v slots w;
    fits = put_item-Fits items name v slots s e (λ _. m) w.fits;
    single = λ id i. grind (arith, filled-count name s v id slots e nv i, w.single id i);
  }

  -- An item of the human itself, put where it fits and taken out of the first slot that has it.
  pub refilled-AreWorn :
      (mine : ℕ → Bool) (name : SlotName) (s : Slot) (v : ℕ) (slots : List Slot)
      → get_slot name slots ≡ some s
      → is_valid_item items s.item ≡ false
      → is_valid_item items v ≡ true
      → is_type_match s.type (items.type_of v) ≡ true
      → mine v ≡ true
      → AreWorn mine slots
      → (left : List Slot) × (take_out v (put_item name v slots) ≡ some left)
        × AreWorn (own v true mine) left
  unfolding own
  refilled-AreWorn mine name s v slots e nv i m o w =
      let there =
        take_out-some v (put_item name v slots)
          (omega (arith, filled-count name s v v slots e nv i, occurs_self v)) in
      (
        there.0,
        there.1,
        record {
          found = λ n.
              let t = filled-found mine name n v slots w in
              let u = take_out-found n v _ there.0 t.0 there.1 t.1 in (u.0, u.1);
          fits =
              take_out-Fits items v _ there.0 there.1
                (put_item-Fits items name v slots s e (λ _. m) w.fits);
          single = λ id j. grind (
            arith,
            filled-count name s v id slots e nv j,
            w.single id j,
            take_out-count v _ there.0 there.1 id (valid-zero id j),
          );
        },
      )
