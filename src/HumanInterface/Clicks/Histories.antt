-- ===== src/HumanInterface/Clicks/Histories.antt =====
-- A human's interface under any history of clicks.
use griefly.Prelude.{
  ℕ, ◌≡◌, refl, sym, ◌∙◌, ◌⊎◌, inl, inr, Bool, true, false, ◌&&◌, ◌==◌, if◌then◌else◌, Option, some,
  List, [], ◌∷◌, All, arith, Bool-cases, ==→≡,
}
use griefly.HumanInterface.Slots.{
  SlotName, Slot, Items, is_type_match, same_name, get_slot, put_item, active_hand_name,
  get_active_hand, with_slots, is_valid_item, insert_item, pick_item, remove_item, drop_item,
  swap_hands, new_interface,
}
use griefly.HumanInterface.Slots.Counting.{put_item-same}
use griefly.HumanInterface.Masks.{Classes}
use griefly.HumanInterface.Clicks.{
  Wearer, new_wearer, own, Click, on_slot, on_drop, on_stop_pull, on_swap, on_lay, on_indicator,
  After, let_go, click_drop, handle_click, leave_owner, keep_or_attack, pick_up, click_object,
  Event, clicks, clicks_object, step, run, stop_pull,
}
use griefly.HumanInterface.Clicks.Wearing.{
  AreWorn, on_slot-AreWorn, emptied-AreWorn, filled-AreWorn, refilled-AreWorn,
}
use griefly.Human.{Human}

-- The slots are worn, and the swap button shows the hand that is active.
pub record IsWorn (items : Items) (w : Wearer) : Type 0 where
  pub slots : AreWorn items w.mine w.interface.slots
  pub swap : w.interface.swap_shows_right ≡ w.interface.active_hand

-- An operation comes through and leaves all worn.
abbrev pub Comes : Items → Option Wearer → Type 0
Comes items o = (w : Wearer) × (o ≡ some w) × IsWorn items w

abbrev pub ComesAfter : Items → Option After → Type 0
ComesAfter items o = (a : After) × (o ≡ some a) × IsWorn items a.wearer

-- The other owner of an item gives it away.
abbrev pub Gives : Event → Type 0
Gives (clicks c) = Unit
Gives (clicks_object item gives) = gives ≡ true

if-ComesAfter :
    (items : Items) (b : Bool) (x y : Option After)
    → ComesAfter items x
    → ComesAfter items y
    → ComesAfter items (if b then x else y)
if-ComesAfter items true x y c d = c
if-ComesAfter items false x y c d = d

new_wearer-IsWorn : (items : Items) (body : Human) → IsWorn items (new_wearer body)
unfolding new_wearer new_interface same_name
new_wearer-IsWorn items body = record {
  slots = record {
    found = named;
    fits = (unfit, (unfit, (unfit, (unfit, (unfit, (unfit, (unfit, (unfit, _))))))));
    single = λ id i. grind arith;
  };
  swap = refl;
}
  where
    named : (name : SlotName) → (s : Slot) × (get_slot name new_interface.slots ≡ some s)
    named SlotName.right_hand = (_, refl)
    named SlotName.left_hand = (_, refl)
    named SlotName.head = (_, refl)
    named SlotName.mask = (_, refl)
    named SlotName.uniform = (_, refl)
    named SlotName.feet = (_, refl)
    named SlotName.suit = (_, refl)
    named SlotName.back = (_, refl)

    unfit : {T : Type 0} → false ≡ true → T
    unfit e = absurd (grind (arith, e))

module _ (items : Items) (classes : Classes) (hand : ℕ) where
  let_go-Comes :
      (w : Wearer) (mine : ℕ → Bool) (s : Slot)
      → get_active_hand w.interface ≡ some s
      → ((id : ℕ) → (id ≡ s.item) ⊎ (mine id ≡ w.mine id))
      → IsWorn items w
      → Comes items (let_go items classes hand (record w { mine = mine }))
  unfolding let_go drop_item remove_item
  let_go-Comes w mine s e h v = rw e (
    _,
    refl,
    record {
      slots = emptied-AreWorn items w.mine mine _ s w.interface.slots e h v.slots;
      swap = v.swap;
    },
  )

  click_drop-Comes :
      (takes : Bool) (w : Wearer)
      → IsWorn items w
      → Comes items (click_drop items classes hand takes w)
  unfolding click_drop own
  click_drop-Comes takes w v =
      let active = v.slots.found (active_hand_name w.interface.active_hand) in
      rw active.1 (elim (Bool-cases (is_valid_item items active.0.item && takes)) [
        | inl drops ↦ rw drops (let_go-Comes w _ active.0 active.1 (λ id. other id active.0.item) v)
        | inr keeps ↦ rw keeps (w, refl, v)
      ])
    where
      other : (id v : ℕ) → (id ≡ v) ⊎ (own v false w.mine id ≡ w.mine id)
      other id v = elim (Bool-cases (id == v)) [
        | inl same ↦ inl (==→≡ id v same)
        | inr apart ↦ inr (rw apart refl)
      ]

  handle_click-ComesAfter :
      (c : Click) (w : Wearer)
      → IsWorn items w
      → ComesAfter items (handle_click items classes hand c w)
  unfolding handle_click swap_hands stop_pull
  handle_click-ComesAfter (on_slot name) w v =
      let d = on_slot-AreWorn items w.mine hand name w.interface v.slots in
      rw d.1 (_, refl, record { slots = d.2; swap = d.4 ∙ v.swap ∙ sym d.3 })
  handle_click-ComesAfter (on_drop takes) w v =
      let d = click_drop-Comes takes w v in rw d.1 (_, refl, d.2)
  handle_click-ComesAfter on_stop_pull w v = (_, refl, record { slots = v.slots; swap = v.swap })
  handle_click-ComesAfter on_swap w v = (_, refl, record { slots = v.slots; swap = refl })
  handle_click-ComesAfter on_lay w v = (_, refl, record { slots = v.slots; swap = v.swap })
  handle_click-ComesAfter on_indicator w v = (_, refl, v)

  keep-ComesAfter :
      (item : ℕ) (w : Wearer) (s : Slot)
      → get_active_hand w.interface ≡ some s
      → is_valid_item items s.item ≡ false
      → is_valid_item items item ≡ true
      → is_type_match s.type (items.type_of item) ≡ true
      → IsWorn items w
      → ComesAfter items (
          keep_or_attack items classes hand item true true (record w {
            interface =
                with_slots
                  (put_item (active_hand_name w.interface.active_hand) item w.interface.slots)
                  w.interface;
          }))
  unfolding keep_or_attack leave_owner
  keep-ComesAfter item w s e nv i m v = elim (Bool-cases (w.mine item)) [
    | inl self ↦
        let r = refilled-AreWorn items w.mine _ s item w.interface.slots e nv i m self v.slots in
        rw self (rw r.1 (_, refl, record { slots = r.2; swap = v.swap }))
    | inr other ↦ rw other (
      _,
      refl,
      record {
        slots = filled-AreWorn items w.mine _ s item w.interface.slots e nv m other v.slots;
        swap = v.swap;
      },
    )
  ]

  pick_up-ComesAfter :
      (item : ℕ) (w : Wearer) (s : Slot)
      → get_active_hand w.interface ≡ some s
      → is_valid_item items s.item ≡ false
      → IsWorn items w
      → ComesAfter items (pick_up items classes hand item true w)
  unfolding pick_up pick_item insert_item keep_or_attack
  pick_up-ComesAfter item w s e nv v = at (is_valid_item items item) refl _ refl
    where
      unchanged : ComesAfter items (keep_or_attack items classes hand item true false w)
      unchanged = let c = let_go-Comes w w.mine s e (λ id. inr refl) v in rw c.1 (_, refl, c.2)

      at :
          (i : Bool)
          → is_valid_item items item ≡ i
          → (m : Bool) → is_type_match s.type (items.type_of item) ≡ m
          → ComesAfter items (pick_up items classes hand item true w)
      at true i true m = rw e (
          rw nv (
            rw i (
              rw m (
                rw
                  (put_item-same (active_hand_name w.interface.active_hand) item w.interface.slots s
                    e)
                  (rw i (keep-ComesAfter item w s e nv i m v))))))
      at true i false m = rw e (rw nv (rw i (rw m (rw e (rw nv unchanged)))))
      at false i m n = rw e (rw nv (rw i (rw e (rw nv unchanged))))

  step-ComesAfter :
      (e : Event) (w : Wearer)
      → Gives e
      → IsWorn items w
      → ComesAfter items (step items classes hand e w)
  unfolding step click_object
  step-ComesAfter (clicks c) w g v = handle_click-ComesAfter c w v
  step-ComesAfter (clicks_object item gives) w g v =
      let active = v.slots.found (active_hand_name w.interface.active_hand) in
      rw active.1 (
        rw g (
          if-ComesAfter items w.body.lying _ _ (_, refl, v)
            (elim (Bool-cases (is_valid_item items active.0.item)) [
              | inl tool ↦ rw tool (_, refl, v)
              | inr empty ↦ rw empty (pick_up-ComesAfter item w active.0 active.1 empty v)
            ])))

  run-Comes :
      (es : List Event) (w : Wearer)
      → All Gives es
      → IsWorn items w
      → Comes items (run items classes hand es w)
  unfolding run
  run-Comes [] w g v = (w, refl, v)
  run-Comes (e ∷ es) w g v =
      let a = step-ComesAfter e w g.0 v in rw a.1 (run-Comes es a.0.wearer g.1 a.2)

  -- From a human with nothing on, every history of clicks in which the other owners of what is picked
  -- up give it away comes through, and then each slot is there, each living item is in a slot of its
  -- type and in no two, and in none if the human does not own it; and the swap button shows the hand
  -- that is active.
  pub run-new-IsWorn :
      (es : List Event) (body : Human)
      → All Gives es
      → (w : Wearer) × (run items classes hand es (new_wearer body) ≡ some w) × IsWorn items w
  run-new-IsWorn es body g = run-Comes es (new_wearer body) g (new_wearer-IsWorn items body)
