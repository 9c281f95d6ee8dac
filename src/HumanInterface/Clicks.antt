-- ===== src/HumanInterface/Clicks.antt =====
-- HandleClick of sources/core/objects/mobs/HumanInterface.cpp, and how Human::ProcessMessage picks up what
-- is clicked with an empty hand, with Human::RemoveObject and StopPull of Human.cpp beside it. What
-- PerformAttack does is up to the item; the attack to perform is a result.
pub mod Wearing
pub mod Histories
use griefly.Prelude.{
  ℕ, zero, suc, Bool, true, false, not, ◌&&◌, ◌==◌, if◌then◌else◌, Option, none, some, List, [],
  ◌∷◌,
}
use griefly.Objects.{◌>>=◌}
use griefly.HumanInterface.Indicators.{update_pulling}
use griefly.HumanInterface.Slots.{
  SlotName, HumanInterface, Items, Done, active_hand_name, get_active_hand, with_slots,
  is_valid_item, pick_item, apply_active_hand_on_slot, drop_item, swap_hands, take_out,
  new_interface,
}
use griefly.HumanInterface.Masks.{Classes, Ties, interface_changes, untied}
use griefly.Human.{Human}
use griefly.Human.Attacks.{click_lay}

-- A human with its interface. `mine` tells whose owner the human is, by ids.
pub record Wearer : Type 0 where
  pub interface : HumanInterface
  pub body : Human
  pub ties : Ties
  pub mine : ℕ → Bool
  pub pulled_object : ℕ

-- A human with nothing on.
abbrev pub new_wearer : Human → Wearer
unfolding new_interface
new_wearer body = record {
  interface = new_interface;
  body = body;
  ties = untied;
  mine = λ _. false;
  pulled_object = 0;
}

-- StopPull
unfoldable pub stop_pull : Wearer → Wearer
stop_pull w = record w {
  pulled_object = 0;
  body = record w.body { interface = update_pulling false w.body.interface };
}

unfoldable pub own : ℕ → Bool → (ℕ → Bool) → ℕ → Bool
own id value f x = if x == id then value else f x

-- What is clicked: a slot, or a button. Of the button that drops, whether AddObject of the human's
-- owner takes the item.
pub data Click : Type 0 where
  on_slot : SlotName → Click
  on_drop : Bool → Click
  on_stop_pull on_swap on_lay on_indicator : Click

-- A result: the wearer, and the attack to perform.
pub record After : Type 0 where
  pub wearer : Wearer
  pub attack : Option (ℕ × ℕ)

abbrev pub calm : Wearer → After
calm w = record { wearer = w; attack = none }

pub data Event : Type 0 where
  clicks : Click → Event
  clicks_object : ℕ → Bool → Event

module _ (items : Items) (classes : Classes) (hand : ℕ) where
  -- DropItem, with InterfaceChanges for what was in the hand
  unfoldable pub let_go : Wearer → Option Wearer
  let_go w = do
    dropped ← drop_item w.interface
    some (record w { interface = dropped.1; ties = interface_changes classes dropped.0 w.ties })

  -- The branch of HandleClick for the button that drops.
  unfoldable pub click_drop : Bool → Wearer → Option Wearer
  click_drop takes w = get_active_hand w.interface >>= (λ active.
      if is_valid_item items active.item && takes
      then let_go (record w { mine = own active.item false w.mine })
      else some w)

  -- HandleClick
  unfoldable pub handle_click : Click → Wearer → Option After
  handle_click (on_slot name) w = do
    done ← apply_active_hand_on_slot items hand name w.interface
    some (record { wearer = record w { interface = done.interface }; attack = done.attack })
  handle_click (on_drop takes) w = click_drop takes w >>= (λ v. some (calm v))
  handle_click on_stop_pull w = some (calm (stop_pull w))
  handle_click on_swap w = some (calm (record w { interface = swap_hands w.interface }))
  handle_click on_lay w = some (calm (record w { body = click_lay w.body }))
  handle_click on_indicator w = some (calm w)

  -- RemoveObject of the item's owner: the human itself, or another, which may not have it.
  unfoldable pub leave_owner : ℕ → Bool → Wearer → Option Wearer
  leave_owner item gives w =
      if w.mine item
      then take_out item w.interface.slots
        >>= (λ left. some (record w { interface = with_slots left w.interface }))
      else if gives
      then some w
      else none

  -- The part of ProcessMessage after PickItem, for an item in the hand then or none.
  unfoldable pub keep_or_attack : ℕ → Bool → Bool → Wearer → Option After
  keep_or_attack item gives true v =
      leave_owner item gives v >>= (λ u. some (calm (record u { mine = own item true u.mine })))
  keep_or_attack item gives false v =
      let_go v >>= (λ u. some (record { wearer = u; attack = some (item, hand) }))

  -- ProcessMessage, for a click with an empty hand on an object that can be touched. `gives` is the answer of another owner's RemoveObject; if that is false the program aborts.
  unfoldable pub pick_up : ℕ → Bool → Wearer → Option After
  pick_up item gives w = do
    picked ← pick_item items item w.interface
    let v = record w { interface = picked.1 }
    active ← get_active_hand v.interface
    keep_or_attack item gives (is_valid_item items active.item) v

  -- A click on an object that can be touched: with an item in the hand it is an attack, and a human
  -- that lies does nothing.
  unfoldable pub click_object : ℕ → Bool → Wearer → Option After
  click_object item gives w = get_active_hand w.interface >>= (λ active.
      if w.body.lying
      then some (calm w)
      else if is_valid_item items active.item
      then some (record { wearer = w; attack = some (item, active.item) })
      else pick_up item gives w)

  unfoldable pub step : Event → Wearer → Option After
  step (clicks c) w = handle_click c w
  step (clicks_object item gives) w = click_object item gives w

  -- A history of clicks; the attacks are performed elsewhere.
  unfoldable pub run : List Event → Wearer → Option Wearer
  run [] w = some w
  run (e ∷ es) w = step e w >>= (λ a. run es a.wearer)
