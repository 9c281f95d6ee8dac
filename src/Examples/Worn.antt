-- ===== src/Examples/Worn.antt =====
-- What a human wears: sources/core/objects/mobs/HumanInterface.cpp, and masks with tanks.
use griefly.Prelude.{◌≡◌, refl, ◌==◌, ◌||◌, if◌then◌else◌, true, some, List, [], ◌∷◌}
use griefly.HumanInterface.Slots.{SlotName, SlotType, Items}
use griefly.HumanInterface.Masks
use griefly.HumanInterface.Clicks
use griefly.HumanInterface.Masks.{
  Classes, ItemKind, Ties, untied, IsMutual, leaves_slot, is_clicked,
}
use griefly.HumanInterface.Masks.Mutual.{run-IsMutual}
use griefly.HumanInterface.Clicks.{
  Wearer, new_wearer, Event, clicks, clicks_object, on_slot, on_drop, on_swap,
}
use griefly.HumanInterface.Clicks.Histories.{IsWorn, run-new-IsWorn}
use griefly.Human.{in_human, new_human}

-- A mask of id 7 and a tank of id 9.
abbrev items : Items
items = record {
  is_alive = λ id. (id == 7) || (id == 9);
  type_of = λ id. if id == 7 then SlotType.mask else SlotType.back;
}

abbrev classes : Classes
classes = record {
  is_alive = λ id. (id == 7) || (id == 9);
  kind_of = λ id. if id == 7 then ItemKind.gas_mask else ItemKind.hand_gas_tank;
}

-- The mask is picked up and put on, the tank is picked up and dropped.
abbrev history : List Event
history =
    clicks_object 7 true
    ∷ clicks (on_slot SlotName.mask)
    ∷ clicks on_swap
    ∷ clicks_object 9 true
    ∷ clicks (on_drop true)
    ∷ []

run-new-IsWorn_example :
    (w : Wearer) × (Clicks.run items classes 3 history (new_wearer (new_human in_human)) ≡ some w)
    × IsWorn items w
run-new-IsWorn_example =
    run-new-IsWorn items classes 3 history (new_human in_human) (refl, (_, (_, (refl, (_, _)))))

run-IsMutual_example :
    IsMutual classes
      (Masks.run classes (is_clicked 9 7 ∷ leaves_slot 7 ∷ is_clicked 9 7 ∷ []) untied)
run-IsMutual_example = run-IsMutual classes (is_clicked 9 7 ∷ leaves_slot 7 ∷ is_clicked 9 7 ∷ [])
