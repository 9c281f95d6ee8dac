-- ===== src/HumanInterface/Slots/Counting.antt =====
-- How often an item is in the slots, and what the assignments to a slot do to it.
use griefly.Prelude.{
  ℕ, ◌+◌, ◌≤◌, ◌≡◌, ◌≢◌, refl, sym, ap, subst, ◌∙◌, inl, inr, Bool, true, false, ◌==◌,
  if◌then◌else◌, Option, none, some, List, [], ◌∷◌, All, arith, Bool-cases, ==→≡,
}
use mathlib.Core.Option.{some-injective}
use griefly.Objects.{◌>>=◌}
use griefly.HumanInterface.Slots.{
  SlotName, Slot, same_name, is_type_match, get_slot, put_item, take_out, Items, is_valid_item,
}

abbrev pub occurs : ℕ → ℕ → ℕ
occurs a b = if a == b then 1 else 0

abbrev pub count : ℕ → List Slot → ℕ
count id [] = 0
count id (slot ∷ slots) = occurs slot.item id + count id slots

-- Two names that are told apart, in either order.
pub same_name_trans :
    (a b c : SlotName) → same_name a b ≡ true → same_name a c ≡ true → same_name b c ≡ true
unfolding same_name
same_name_trans a b c e f = rw (sym (==→≡ _ _ e)) f

found_first :
    (name : SlotName) (slot s : Slot) (slots : List Slot)
    → same_name slot.name name ≡ true
    → get_slot name (slot ∷ slots) ≡ some s
    → slot ≡ s
found_first name slot s slots here e = some-injective slot s (sym (taken here) ∙ e)
  where
    taken : same_name slot.name name ≡ true → get_slot name (slot ∷ slots) ≡ some slot
    taken h = rw h refl

found_later :
    (name : SlotName) (slot s : Slot) (slots : List Slot)
    → same_name slot.name name ≡ false
    → get_slot name (slot ∷ slots) ≡ some s
    → get_slot name slots ≡ some s
found_later name slot s slots away e = sym (passed away) ∙ e
  where
    passed : same_name slot.name name ≡ false → get_slot name (slot ∷ slots) ≡ get_slot name slots
    passed h = rw h refl

pub put_item-count :
    (name : SlotName) (v id : ℕ) (slots : List Slot) (s : Slot)
    → get_slot name slots ≡ some s
    → count id (put_item name v slots) + occurs s.item id ≡ count id slots + occurs v id
put_item-count name v id [] s e = grind arith
put_item-count name v id (slot ∷ slots) s e = elim (Bool-cases (same_name slot.name name)) [
  | inl here ↦ rw here (rw (found_first name slot s slots here e) (omega arith))
  | inr away ↦
      rw away
        (omega (arith, put_item-count name v id slots s (found_later name slot s slots away e)))
]

pub put_item-other :
    (a b : SlotName) (v : ℕ) (slots : List Slot)
    → same_name a b ≡ false
    → get_slot a (put_item b v slots) ≡ get_slot a slots
put_item-other a b v [] e = refl
put_item-other a b v (slot ∷ slots) e = elim (Bool-cases (same_name slot.name b)) [
  | inl put ↦ elim (Bool-cases (same_name slot.name a)) [
    | inl found ↦ absurd (grind (arith, same_name_trans slot.name a b found put, e))
    | inr away ↦ rw put (rw away refl)
  ]
  | inr kept ↦ rw kept (rw (put_item-other a b v slots e) refl)
]

pub put_item-same :
    (name : SlotName) (v : ℕ) (slots : List Slot) (s : Slot)
    → get_slot name slots ≡ some s
    → get_slot name (put_item name v slots) ≡ some (record s { item = v })
put_item-same name v [] s e = grind arith
put_item-same name v (slot ∷ slots) s e = elim (Bool-cases (same_name slot.name name)) [
  | inl here ↦ rw here (
      rw here
        (ap (λ (x : Slot). some (record x { item = v })) (found_first name slot s slots here e)))
  | inr away ↦
      rw away (rw away (put_item-same name v slots s (found_later name slot s slots away e)))
]

-- A slot that is found is still found, with its type.
pub put_item-found :
    (a b : SlotName) (v : ℕ) (slots : List Slot) (s : Slot)
    → get_slot a slots ≡ some s
    → (t : Slot) × (get_slot a (put_item b v slots) ≡ some t) × (t.type ≡ s.type)
put_item-found a b v [] s e = grind arith
put_item-found a b v (slot ∷ slots) s e = elim (Bool-cases (same_name slot.name b)) [
  | inl put ↦ elim (Bool-cases (same_name slot.name a)) [
    | inl here ↦ (
      record slot { item = v },
      rw put (rw here refl),
      ap (λ x. x.type) (found_first a slot s slots here e),
    )
    | inr away ↦ (s, rw put (rw away (found_later a slot s slots away e)), refl)
  ]
  | inr kept ↦ elim (Bool-cases (same_name slot.name a)) [
    | inl here ↦
        (slot, rw kept (rw here refl), ap (λ x. x.type) (found_first a slot s slots here e))
    | inr away ↦
        let t = put_item-found a b v slots s (found_later a slot s slots away e) in
        (t.0, rw kept (rw away t.1), t.2)
  ]
]

-- A slot holds a living item only of its type.
abbrev pub Fits : Items → Slot → Type 0
Fits items s =
    is_valid_item items s.item ≡ true → is_type_match s.type (items.type_of s.item) ≡ true

pub put_item-Fits :
    (items : Items) (name : SlotName) (v : ℕ) (slots : List Slot) (s : Slot)
    → get_slot name slots ≡ some s
    → Fits items (record s { item = v })
    → All (Fits items) slots
    → All (Fits items) (put_item name v slots)
put_item-Fits items name v [] s e h all = all
put_item-Fits items name v (slot ∷ slots) s e h all = elim (Bool-cases (same_name slot.name name)) [
  | inl here ↦ rw here (
    subst (λ x. Fits items (record x { item = v })) (sym (found_first name slot s slots here e)) h,
    all.1,
  )
  | inr away ↦
      rw away
        (all.0, put_item-Fits items name v slots s (found_later name slot s slots away e) h all.1)
]

pub get_slot-Fits :
    (items : Items) (name : SlotName) (slots : List Slot) (s : Slot)
    → get_slot name slots ≡ some s
    → All (Fits items) slots
    → Fits items s
get_slot-Fits items name [] s e all = grind arith
get_slot-Fits items name (slot ∷ slots) s e all = elim (Bool-cases (same_name slot.name name)) [
  | inl here ↦ subst (Fits items) (found_first name slot s slots here e) all.0
  | inr away ↦ get_slot-Fits items name slots s (found_later name slot s slots away e) all.1
]

-- Without the first slot that has it, an item is there once less, and no other item changes.
pub take_out-count :
    (item : ℕ) (slots left : List Slot)
    → take_out item slots ≡ some left
    → (id : ℕ) → id ≢ 0
    → count id left + occurs item id ≡ count id slots
unfolding take_out
take_out-count item [] left e id nz = grind arith
take_out-count item (slot ∷ slots) left e id nz =
    at (slot.item == item) (take_out item slots) e refl (λ l q. take_out-count item slots l q id nz)
  where
    at :
        (b : Bool) (o : Option (List Slot))
        → (if b then some (record slot { item = 0 } ∷ slots) else (o >>= (λ l. some (slot ∷ l))))
          ≡ some left
        → (slot.item == item) ≡ b
        → ((l : List Slot) → o ≡ some l → count id l + occurs item id ≡ count id slots)
        → count id left + occurs item id ≡ count id (slot ∷ slots)
    at true o e h later = rw⁻¹ (some-injective _ left e) (rw (==→≡ _ _ h) (grind arith))
    at false none e h later = grind arith
    at false (some rest) e h later = rw⁻¹ (some-injective _ left e) (omega (arith, later rest refl))

-- Taking an item out keeps the slots, and each with a living item of its type.
pub take_out-Fits :
    (items : Items) (item : ℕ) (slots left : List Slot)
    → take_out item slots ≡ some left
    → All (Fits items) slots
    → All (Fits items) left
unfolding take_out
take_out-Fits items item [] left e all = grind arith
take_out-Fits items item (slot ∷ slots) left e all =
    at (slot.item == item) (take_out item slots) e (λ l q. take_out-Fits items item slots l q all.1)
  where
    at :
        (b : Bool) (o : Option (List Slot))
        → (if b then some (record slot { item = 0 } ∷ slots) else (o >>= (λ l. some (slot ∷ l))))
          ≡ some left
        → ((l : List Slot) → o ≡ some l → All (Fits items) l)
        → All (Fits items) left
    at true o e later = subst (All (Fits items)) (some-injective _ left e) (λ h. grind arith, all.1)
    at false none e later = grind arith
    at false (some rest) e later =
        subst (All (Fits items)) (some-injective _ left e) (all.0, later rest refl)

pub take_out-found :
    (name : SlotName) (item : ℕ) (slots left : List Slot) (s : Slot)
    → take_out item slots ≡ some left
    → get_slot name slots ≡ some s
    → (t : Slot) × (get_slot name left ≡ some t) × (t.type ≡ s.type)
unfolding take_out
take_out-found name item [] left s e f = grind arith
take_out-found name item (slot ∷ slots) left s e f =
    at (slot.item == item) (take_out item slots) e (λ l q. take_out-found name item slots l s q)
  where
    kept :
        (l : List Slot)
        → (get_slot name slots ≡ some s
            → (t : Slot) × (get_slot name l ≡ some t) × (t.type ≡ s.type))
        → (x : Slot) → x.name ≡ slot.name
        → x.type ≡ slot.type
        → (t : Slot) × (get_slot name (x ∷ l) ≡ some t) × (t.type ≡ s.type)
    kept l later x n y = elim (Bool-cases (same_name slot.name name)) [
      | inl here ↦
          (x, rw n (rw here refl), y ∙ ap (λ z. z.type) (found_first name slot s slots here f))
      | inr away ↦
          let t = later (found_later name slot s slots away f) in (t.0, rw n (rw away t.1), t.2)
    ]

    at :
        (b : Bool) (o : Option (List Slot))
        → (if b then some (record slot { item = 0 } ∷ slots) else (o >>= (λ l. some (slot ∷ l))))
          ≡ some left
        → ((l : List Slot)
            → o ≡ some l
            → get_slot name slots ≡ some s
            → (t : Slot) × (get_slot name l ≡ some t) × (t.type ≡ s.type))
        → (t : Slot) × (get_slot name left ≡ some t) × (t.type ≡ s.type)
    at true o e later =
        subst (λ l. (t : Slot) × (get_slot name l ≡ some t) × (t.type ≡ s.type))
          (some-injective _ left e)
          (kept slots (λ q. (s, q, refl)) (record slot { item = 0 }) refl refl)
    at false none e later = grind arith
    at false (some rest) e later =
        subst (λ l. (t : Slot) × (get_slot name l ≡ some t) × (t.type ≡ s.type))
          (some-injective _ left e) (kept rest (later rest refl) slot refl refl)

pub take_out-some :
    (item : ℕ) (slots : List Slot)
    → 1 ≤ count item slots
    → (left : List Slot) × (take_out item slots ≡ some left)
unfolding take_out
take_out-some item [] le = absurd (omega arith)
take_out-some item (slot ∷ slots) le = elim (Bool-cases (slot.item == item)) [
  | inl here ↦ (record slot { item = 0 } ∷ slots, rw here refl)
  | inr away ↦
      let rest = take_out-some item slots (later away) in
      (slot ∷ rest.0, passed away ∙ ap (λ o. o >>= (λ l. some (slot ∷ l))) rest.1)
]
  where
    later : (slot.item == item) ≡ false → 1 ≤ count item slots
    later e = grind (arith, e, le)

    passed :
        (slot.item == item) ≡ false
        → take_out item (slot ∷ slots) ≡ (take_out item slots >>= (λ l. some (slot ∷ l)))
    passed e = rw e refl
