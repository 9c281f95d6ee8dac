-- ===== src/HumanInterface/Slots.antt =====
-- The slots of sources/core/objects/mobs/HumanInterface.h and HumanInterface.cpp, with Slot and IsTypeMatch
-- of sources/core/objects/mobs/Slot.h. An IdPtr<Item> is an id, 0 for none, and which ids lead to an
-- item, of which type, is an argument. A `Slot*` is the slot's name, and kv::Abort is `none`.
pub mod Counting
use griefly.Prelude.{
  ℕ, zero, suc, Bool, true, false, not, ◌&&◌, ◌==◌, if◌then◌else◌, Option, none, some, List, [],
  ◌∷◌,
}
use griefly.Objects.{◌>>=◌}

-- slot::RIGHT_HAND and the other names
pub data SlotName : Type 0 where
  right_hand left_hand head mask uniform feet suit back : SlotName

pub data SlotType : Type 0 where
  default suit head anything feet uniform mask back : SlotType

-- Equality of the enumeration, through its values.
abbrev type_value : SlotType → ℕ
type_value SlotType.default = 0
type_value SlotType.suit = 1
type_value SlotType.head = 2
type_value SlotType.anything = 3
type_value SlotType.feet = 4
type_value SlotType.uniform = 5
type_value SlotType.mask = 6
type_value SlotType.back = 7

abbrev pub name_value : SlotName → ℕ
name_value SlotName.right_hand = 0
name_value SlotName.left_hand = 1
name_value SlotName.head = 2
name_value SlotName.mask = 3
name_value SlotName.uniform = 4
name_value SlotName.feet = 5
name_value SlotName.suit = 6
name_value SlotName.back = 7

unfoldable pub same_name : SlotName → SlotName → Bool
same_name a b = name_value a == name_value b

pub record Slot : Type 0 where
  pub name : SlotName
  pub type : SlotType
  pub item : ℕ

pub record HumanInterface : Type 0 where
  pub slots : List Slot
  -- true for the right hand
  pub active_hand : Bool
  -- whether the swap button shows states::RIGHT_HAND
  pub swap_shows_right : Bool

abbrev slot_of : SlotName → SlotType → Slot
slot_of name type = record { name = name; type = type; item = 0 }

-- HumanInterface::HumanInterface
unfoldable pub new_interface : HumanInterface
new_interface = record {
  slots =
      slot_of SlotName.right_hand SlotType.anything
      ∷ slot_of SlotName.left_hand SlotType.anything
      ∷ slot_of SlotName.head SlotType.head
      ∷ slot_of SlotName.mask SlotType.mask
      ∷ slot_of SlotName.uniform SlotType.uniform
      ∷ slot_of SlotName.feet SlotType.feet
      ∷ slot_of SlotName.suit SlotType.suit
      ∷ slot_of SlotName.back SlotType.back
      ∷ [];
  active_hand = true;
  swap_shows_right = true;
}

-- IsTypeMatch
unfoldable pub is_type_match : SlotType → SlotType → Bool
is_type_match SlotType.anything type = true
is_type_match slot_type type = type_value slot_type == type_value type

-- GetSlot
abbrev pub get_slot : SlotName → List Slot → Option Slot
get_slot name [] = none
get_slot name (slot ∷ slots) =
    let rest = get_slot name slots in if same_name slot.name name then some slot else rest

-- The assignment to the item of a slot.
abbrev pub put_item : SlotName → ℕ → List Slot → List Slot
put_item name item [] = []
put_item name item (slot ∷ slots) =
    let rest = put_item name item slots in
    if same_name slot.name name then record slot { item = item } ∷ slots else slot ∷ rest

abbrev pub active_hand_name : Bool → SlotName
active_hand_name true = SlotName.right_hand
active_hand_name false = SlotName.left_hand

abbrev pub with_slots : List Slot → HumanInterface → HumanInterface
with_slots slots i = record i { slots = slots }

-- GetActiveHand
abbrev pub get_active_hand : HumanInterface → Option Slot
get_active_hand i = get_slot (active_hand_name i.active_hand) i.slots

-- RemoveItem of an id: the first slot that has it
unfoldable pub take_out : ℕ → List Slot → Option (List Slot)
take_out item [] = none
take_out item (slot ∷ slots) =
    let rest = take_out item slots in
    if slot.item == item
    then some (record slot { item = 0 } ∷ slots)
    else rest >>= (λ left. some (slot ∷ left))

-- What an operation on the slots leads to: the interface, and the attack to perform with
-- PerformAttack, of a target with an item.
pub record Done : Type 0 where
  pub interface : HumanInterface
  pub attack : Option (ℕ × ℕ)

-- The ids that lead to an item, and the items' types.
pub record Items : Type 0 where
  pub is_alive : ℕ → Bool
  pub type_of : ℕ → SlotType

module _ (items : Items) where
  -- IdPtr::IsValid
  abbrev pub is_valid_item : ℕ → Bool
  is_valid_item zero = false
  is_valid_item (suc id) = items.is_alive (suc id)

  -- InsertItem into the slot of a name. The first result tells whether the item is in.
  unfoldable pub insert_item : SlotName → ℕ → HumanInterface → Option (Bool × HumanInterface)
  insert_item name item i = do
    slot ← get_slot name i.slots
    let fits =
        not (is_valid_item slot.item)
        && is_valid_item item
        && is_type_match slot.type (items.type_of item)
    some (if fits then (true, with_slots (put_item name item i.slots) i) else (false, i))

  -- PickItem
  unfoldable pub pick_item : ℕ → HumanInterface → Option (Bool × HumanInterface)
  pick_item item i = insert_item (active_hand_name i.active_hand) item i

  -- ApplyActiveHandOnSlot, for the slots that the two references lead to; `hand` is GetHand()
  unfoldable pub apply_hand : ℕ → SlotName → Slot → Slot → HumanInterface → Done
  apply_hand hand name active slot i =
      let active_name = active_hand_name i.active_hand in
      let nothing : Done = record { interface = i; attack = none } in
      let put : Done = record {
        interface = with_slots (put_item active_name 0 (put_item name active.item i.slots)) i;
        attack = none;
      } in
      let take : Done = record {
        interface = with_slots (put_item name 0 (put_item active_name slot.item i.slots)) i;
        attack = none;
      } in
      let tool = if not (is_valid_item active.item) then hand else active.item in
      if is_valid_item active.item && not (is_valid_item slot.item)
      then (if not (is_type_match slot.type (items.type_of active.item)) then nothing else put)
      else if not (is_valid_item active.item) && is_valid_item slot.item
      then (if not (is_type_match active.type (items.type_of slot.item)) then nothing else take)
      else if is_valid_item slot.item
      then record { interface = i; attack = some (slot.item, tool) }
      else nothing

  -- ApplyActiveHandOnSlot
  unfoldable pub apply_active_hand_on_slot : ℕ → SlotName → HumanInterface → Option Done
  apply_active_hand_on_slot hand name i = do
    active ← get_active_hand i
    slot ← get_slot name i.slots
    some (apply_hand hand name active slot i)

-- RemoveItem of a slot, up to InterfaceChanges: the item that was in it, and the interface
unfoldable pub remove_item : SlotName → HumanInterface → Option (ℕ × HumanInterface)
remove_item name i = do
  slot ← get_slot name i.slots
  some (slot.item, with_slots (put_item name 0 i.slots) i)

-- DropItem
unfoldable pub drop_item : HumanInterface → Option (ℕ × HumanInterface)
drop_item i = remove_item (active_hand_name i.active_hand) i

-- SwapHands, with the hands there
unfoldable pub swap_hands : HumanInterface → HumanInterface
swap_hands i =
    let active_hand = not i.active_hand in
    record i { active_hand = active_hand; swap_shows_right = active_hand }
