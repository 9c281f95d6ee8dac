-- ===== src/Human.antt =====
-- Human of sources/core/objects/mobs/Human.h and Human.cpp: the body. A damage is an `int`, far below
-- 2^31 in the game. Names, sprites' overlays and sounds are left out; what is said in the chat is
-- kept as `said`, in its order.
pub mod Living
pub mod Dying
pub mod Breathing
pub mod Recovery
pub mod Attacks
use griefly.Prelude.{
  ℕ, ◌+◌, ◌-◌, ◌*◌, ◌%◌, Bool, true, false, not, ◌&&◌, ltb, ◌==◌, if◌then◌else◌, Option, none, some,
  List, [], ◌∷◌, ◌++◌,
}
use griefly.Prelude.Int.{ℤ, pos, negsuc, ◌+ℤ◌, ◌-ℤ◌, ◌*ℤ◌, ltb_ℤ, leb_ℤ, max_ℤ}
use griefly.Tile.{full, big_item}
use griefly.HumanInterface.Indicators.{
  Indicators, new_indicators, human_max_health, update_laying, update_pulling,
}
use griefly.Random.{Engine, SynchronizedRandom, generate}

-- What PostVisible, PostHtmlFor and MakeEmote are called with.
pub data Notice : Type 0 where
  is_lying_now is_standing_now too_hot too_cold gasps knocked_out got_hit : Notice

-- Whether a player is in the mob, and where OnDeath puts the player's mind.
pub data Mind : Type 0 where
  no_mind in_human in_ghost : Mind

abbrev pub is_minded : Mind → Bool
is_minded in_human = true
is_minded _ = false

abbrev pub laying_mob : ℕ
laying_mob = 8

abbrev pub standing_mob : ℕ
standing_mob = 9

pub record Human : Type 0 where
  pub mind : Mind
  pub freq : ℕ
  pub passable : ℕ
  pub visible_level : ℕ
  pub angle : ℕ
  pub attack_cooldown : ℤ
  pub lay_timer : ℤ
  pub lying : Bool
  pub dead : Bool
  pub max_health : ℤ
  pub suffocation_damage : ℤ
  pub toxins_damage : ℤ
  pub burn_damage : ℤ
  pub brute_damage : ℤ
  pub interface : Indicators
  pub said : List Notice

-- Human::Human and Mob::AfterWorldCreation
unfoldable pub new_human : Mind → Human
new_human mind = record {
  mind = mind;
  freq = 1;
  passable = big_item;
  visible_level = standing_mob;
  angle = 0;
  attack_cooldown = pos 0;
  lay_timer = pos 0;
  lying = false;
  dead = false;
  max_health = human_max_health;
  suffocation_damage = pos 0;
  toxins_damage = pos 0;
  burn_damage = pos 0;
  brute_damage = pos 0;
  interface = new_indicators;
  said = [];
}

abbrev pub post : Notice → Human → Human
post notice h = record h { said = h.said ++ (notice ∷ []) }

-- CalculateHealth
unfoldable pub calculate_health : Human → ℤ
calculate_health h =
    h.max_health -ℤ (h.suffocation_damage +ℤ h.burn_damage +ℤ h.brute_damage +ℤ h.toxins_damage)

abbrev pub damaged : ℤ → ℤ → ℤ
damaged damage before = max_ℤ (pos 0) (before +ℤ damage)

unfoldable pub apply_burn_damage : ℤ → Human → Human
apply_burn_damage damage h = record h { burn_damage = damaged damage h.burn_damage }

unfoldable pub apply_suffocation_damage : ℤ → Human → Human
apply_suffocation_damage damage h = record h {
  suffocation_damage = damaged damage h.suffocation_damage;
}

unfoldable pub apply_toxins_damage : ℤ → Human → Human
apply_toxins_damage damage h = record h { toxins_damage = damaged damage h.toxins_damage }

lie_down : Human → Human
lie_down h =
    let g = post is_lying_now (record h { lying = true }) in
    record g {
      angle = 90;
      passable = full;
      visible_level = laying_mob;
      interface = update_laying true g.interface;
    }

stand_up : Human → Human
stand_up h =
    let g = post is_standing_now (record h { lying = false }) in
    record g {
      angle = 0;
      passable = big_item;
      visible_level = standing_mob;
      interface = update_laying false g.interface;
    }

-- SetLaying
unfoldable pub set_laying : Bool → Human → Human
unfolding lie_down stand_up
set_laying value h =
    if not value && ltb_ℤ (pos 0) h.lay_timer then h else if value then lie_down h else stand_up h

unfoldable pub add_laying_timer : ℤ → Human → Human
add_laying_timer value h = record h { lay_timer = h.lay_timer +ℤ value }

-- Regeneration
unfoldable pub regeneration : Human → Human
unfolding apply_suffocation_damage
regeneration h =
    if leb_ℤ h.suffocation_damage (pos 0) then h else apply_suffocation_damage (negsuc 49) h

-- OnDeath: the player goes on as a ghost.
unfoldable pub on_death : Human → Human
on_death h =
    let g = if is_minded h.mind then record h { mind = in_ghost } else h in
    record g { dead = true; freq = 0 }
