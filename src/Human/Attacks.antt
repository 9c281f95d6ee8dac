-- ===== src/Human/Attacks.antt =====
-- What hurts and heals a human: ApplyBruteDamage, AttackBy and Bump of
-- sources/core/objects/mobs/Human.cpp, Medicine::Heal of objects/movable/items/MedbayTools.cpp beside
-- it, and the button that lays a human down. A drink and an analyzer do nothing to a human.
pub mod Soundness
pub mod Histories
use griefly.Prelude.{
  ℕ, ◌+◌, ◌%◌, Bool, true, false, not, ◌&&◌, ltb, ◌==◌, if◌then◌else◌, Option, none, some, List, [],
  ◌∷◌,
}
use griefly.Prelude.Int.{ℤ, pos, ◌+ℤ◌, ◌-ℤ◌, ◌*ℤ◌, ltb_ℤ, max_ℤ, pos_part}
use griefly.Human.{
  damaged, Human, knocked_out, got_hit, post, apply_burn_damage, apply_toxins_damage, set_laying,
  add_laying_timer,
}
use griefly.Human.Living.{Scene, live}
use griefly.Atmos.Gas.{AtmosData}
use griefly.Random.{Engine, generate}

-- The scene, and IsBloody of the floor under the human, where the turf is one.
pub record Site (G : Type 0) : Type 0 where
  pub scene : Scene G
  pub bloody : Option Bool

-- An item that a human is attacked by, with what the code reads of it.
pub data Item : Type 0 where
  drinks : Item
  health_analyzer : Item
  -- burn_heal_, brute_heal_, toxins_heal_
  medicine : ℤ → ℤ → ℤ → Item
  hand : ℤ → Item
  other : ℤ → Item
  invalid : Item

abbrev pub on_human : {G : Type 0} → (Human → Human) → Site G → Site G
on_human f s = record s { scene = record s.scene { human = f s.scene.human } }

unfoldable pub hurt_brute : ℤ → Human → Human
hurt_brute damage h = record h { brute_damage = damaged damage h.brute_damage }

abbrev pub always_blood_border : ℤ
always_blood_border = pos 1000

unfoldable pub brute_helper : Human → ℕ
brute_helper h = pos_part (max_ℤ (pos 1) (always_blood_border -ℤ h.brute_damage))

abbrev bleed_on : Option Bool → Option Bool
bleed_on none = none
bleed_on (some _) = some true

abbrev pub knock_out : Human → Human
knock_out h = post knocked_out (add_laying_timer (pos 100) (set_laying true h))

-- HandleClick of HumanInterface, for the button that lays down and raises
unfoldable pub click_lay : Human → Human
click_lay h = if h.lying then set_laying false h else set_laying true (add_laying_timer (pos 50) h)

pub data Event : Type 0 where
  live_tick : ℕ → Bool → Option AtmosData → Event
  is_attacked : Item → Event
  is_hit : ℤ → ℤ → Event
  is_clicked : Event

module _ {G : Type 0} (engine : Engine G) where
  abbrev pub draw : Site G → ℕ × Site G
  draw s =
      let drawn = generate engine s.scene.random in
      (drawn.0, record s { scene = record s.scene { random = drawn.1 } })

  -- The blood of ApplyBruteDamage; the second number drawn chooses the picture.
  unfoldable pub bleed : Site G → Site G
  bleed s =
      let first = draw s in
      let second = draw first.1 in
      if first.0 % brute_helper s.scene.human == 1
      then first.1
      else record second.1 { bloody = bleed_on second.1.bloody }

  -- ApplyBruteDamage
  unfoldable pub apply_brute_damage : ℤ → Site G → Site G
  apply_brute_damage damage s =
      let hurt = on_human (hurt_brute damage) s in if ltb_ℤ (pos 0) damage then bleed hurt else hurt

  -- The part of AttackBy for a hand, after the damage. The first number drawn chooses the sound.
  unfoldable pub punch : Site G → Site G
  punch s =
      let chance = draw (draw s).1 in
      if chance.0 % 5 == 0 then on_human knock_out chance.1 else chance.1

  -- Medicine::Heal
  unfoldable pub heal : ℤ → ℤ → ℤ → Site G → Site G
  heal burn brute toxins s =
      on_human (apply_toxins_damage (pos 0 -ℤ toxins))
        (apply_brute_damage (pos 0 -ℤ brute) (on_human (apply_burn_damage (pos 0 -ℤ burn)) s))

  -- AttackBy. The number drawn for an ordinary item chooses the sound.
  unfoldable pub attack_by : Item → Site G → Site G
  attack_by drinks s = s
  attack_by health_analyzer s = s
  attack_by (medicine burn brute toxins) s = heal burn brute toxins s
  attack_by (hand damage) s = punch (apply_brute_damage (damage *ℤ pos 100) s)
  attack_by (other damage) s =
      if ltb_ℤ (pos 0) damage then (draw (apply_brute_damage (damage *ℤ pos 100) s)).1 else s
  attack_by invalid s = s

  -- Bump, for a projectile and its two damages
  unfoldable pub bump : ℤ → ℤ → Site G → Site G
  bump damage burn_damage s =
      on_human (λ h. post got_hit (apply_burn_damage (burn_damage *ℤ pos 100) h))
        (apply_brute_damage (damage *ℤ pos 100) s)

  unfoldable pub step : Event → Site G → Site G
  step (live_tick tick has_owner air) s = record s {
    scene = live engine tick has_owner (record s.scene { air = air });
  }
  step (is_attacked item) s = attack_by item s
  step (is_hit damage burn_damage) s = bump damage burn_damage s
  step is_clicked s = on_human click_lay s

  -- A history of events.
  unfoldable pub run : List Event → Site G → Site G
  run [] s = s
  run (e ∷ es) s = run es (step e s)
