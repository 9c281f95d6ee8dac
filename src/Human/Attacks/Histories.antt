-- ===== src/Human/Attacks/Histories.antt =====
-- A human after any history of ticks, attacks, shots and clicks.
use griefly.Prelude.{ℕ, refl, Bool, Option, none, some, List, [], ◌∷◌}
use griefly.Prelude.Int.{ℤ, pos, ◌-ℤ◌, ◌*ℤ◌}
use griefly.HumanInterface.Indicators.{update_environment}
use griefly.Human.{apply_burn_damage}
use griefly.Human.Living.{
  Scene, suffocate, breathe, live_in, live_in_air, live_in_air_of, tick_timer, collapse, after_air,
  live,
}
use griefly.Human.Attacks.{
  on_human, Site, Item, drinks, health_analyzer, medicine, hand, other, invalid, bleed,
  apply_brute_damage, punch, heal, attack_by, bump, Event, live_tick, is_attacked, is_hit,
  is_clicked, step, run,
}
use griefly.Atmos.Gas.{AtmosData}
use griefly.Random.{Engine}
use griefly.Human.Attacks.Soundness.{
  IsSound, IsSoundIn, IsSoundAt, hurt-IsSound, tick_timer-IsSound, suffocation-IsSound,
  toxins-IsSound, hurt_brute-IsSound, if-IsSound, post-IsSound, suffer_temperature-IsSound,
  regeneration-IsSound, knock_out-IsSound, click_lay-IsSound, if_scene-IsSoundIn, if_site-IsSoundAt,
  environment-IsSound, die-IsSoundIn, lie_if_standing-IsSound,
}

module _ {G : Type 0} (engine : Engine G) where
  suffocate-IsSoundIn :
      (one_in period tick : ℕ) (s : Scene G)
      → IsSound s.human
      → IsSoundIn (suffocate engine one_in period tick s)
  unfolding suffocate
  suffocate-IsSoundIn one_in period tick s v =
      let hurt = suffocation-IsSound (pos 100) s.human v in
      record { human = if-IsSound _ _ _ (post-IsSound _ _ hurt) hurt }

  breathe-IsSoundIn :
      (tick : ℕ) (oxygen : ℤ) (air : AtmosData) (s : Scene G)
      → IsSound s.human
      → IsSoundIn (breathe engine tick oxygen air s)
  unfolding breathe
  breathe-IsSoundIn tick oxygen air s v =
      if_scene-IsSoundIn _ _ _ (record { human = regeneration-IsSound s.human v })
        (if_scene-IsSoundIn _ _ _ (suffocate-IsSoundIn 5 3 tick (record s { air = some air }) v)
          (record { human = v }))

  live_in-IsSoundIn :
      (tick : ℕ) (air : AtmosData) (s : Scene G)
      → IsSound s.human
      → IsSoundIn (live_in engine tick air s)
  unfolding live_in update_environment
  live_in-IsSoundIn tick air s v =
      let w = suffer_temperature-IsSound tick air _ (environment-IsSound _ s.human refl v) in
      if_scene-IsSoundIn _ _ _
        (breathe-IsSoundIn tick _ _ (record s { human = _ }) (toxins-IsSound _ _ w))
        (breathe-IsSoundIn tick _ _ (record s { human = _ }) w)

  live_in_air-IsSoundIn :
      (tick : ℕ) (s : Scene G) → IsSound s.human → IsSoundIn (live_in_air engine tick s)
  unfolding live_in_air
  live_in_air-IsSoundIn tick s v = at s.air
    where
      at : (air : Option AtmosData) → IsSoundIn (live_in_air_of engine tick air s)
      at none = record { human = v }
      at (some air) = live_in-IsSoundIn tick air s v

  collapse-IsSoundIn : (tick : ℕ) (s : Scene G) → IsSoundIn s → IsSoundIn (collapse engine tick s)
  unfolding collapse
  collapse-IsSoundIn tick s v =
      let down = lie_if_standing-IsSound s.human v.human in
      if_scene-IsSoundIn _ _ _
        (if_scene-IsSoundIn _ _ _ (suffocate-IsSoundIn 4 4 tick (record s { human = _ }) down)
          (record { human = down }))
        v

  live-IsSoundIn :
      (tick : ℕ) (has_owner : Bool) (s : Scene G)
      → IsSoundIn s
      → IsSoundIn (live engine tick has_owner s)
  unfolding live after_air
  live-IsSoundIn tick has_owner s v =
      let breathed = live_in_air-IsSoundIn tick s v.human in
      let timed : IsSoundIn (record (live_in_air engine tick s) { human = tick_timer _ }) = record {
        human = tick_timer-IsSound _ breathed.human;
      } in
      let all = die-IsSoundIn _ (collapse-IsSoundIn tick _ timed) in
      if_scene-IsSoundIn _ _ _ v (if_scene-IsSoundIn has_owner _ _ all v)

  apply_brute_damage-IsSoundAt :
      (damage : ℤ) (s : Site G)
      → IsSound s.scene.human
      → IsSoundAt (apply_brute_damage engine damage s)
  unfolding apply_brute_damage bleed
  apply_brute_damage-IsSoundAt damage s v =
      let hurt = hurt_brute-IsSound damage s.scene.human v in
      if_site-IsSoundAt _ _ _
        (if_site-IsSoundAt _ _ _ (record { human = hurt }) (record { human = hurt }))
        (record { human = hurt })

  attack_by-IsSoundAt :
      (item : Item) (s : Site G) → IsSoundAt s → IsSoundAt (attack_by engine item s)
  unfolding attack_by punch heal
  attack_by-IsSoundAt drinks s v = v
  attack_by-IsSoundAt health_analyzer s v = v
  attack_by-IsSoundAt (medicine burn brute toxins) s v = record {
    human =
        toxins-IsSound _ _
          (apply_brute_damage-IsSoundAt _ (on_human (apply_burn_damage (pos 0 -ℤ burn)) s)
            (hurt-IsSound _ _ v.human)).human;
  }
  attack_by-IsSoundAt (hand damage) s v =
      let hurt = apply_brute_damage-IsSoundAt (damage *ℤ pos 100) s v.human in
      if_site-IsSoundAt _ _ _ (record { human = knock_out-IsSound _ hurt.human })
        (record { human = hurt.human })
  attack_by-IsSoundAt (other damage) s v =
      let hurt = apply_brute_damage-IsSoundAt (damage *ℤ pos 100) s v.human in
      if_site-IsSoundAt _ _ _ (record { human = hurt.human }) v
  attack_by-IsSoundAt invalid s v = v

  step-IsSoundAt : (e : Event) (s : Site G) → IsSoundAt s → IsSoundAt (step engine e s)
  unfolding step bump
  step-IsSoundAt (live_tick tick has_owner air) s v = record {
    human =
        (live-IsSoundIn tick has_owner (record s.scene { air = air })
          (record { human = v.human })).human;
  }
  step-IsSoundAt (is_attacked item) s v = attack_by-IsSoundAt item s v
  step-IsSoundAt (is_hit damage burn_damage) s v = record {
    human =
        post-IsSound _ _
          (hurt-IsSound _ _ (apply_brute_damage-IsSoundAt (damage *ℤ pos 100) s v.human).human);
  }
  step-IsSoundAt is_clicked s v = record { human = click_lay-IsSound _ v.human }

  run-IsSoundAt : (es : List Event) (s : Site G) → IsSoundAt s → IsSoundAt (run engine es s)
  unfolding run
  run-IsSoundAt [] s v = v
  run-IsSoundAt (e ∷ es) s v = run-IsSoundAt es (step engine e s) (step-IsSoundAt e s v)

  -- A history of ticks, attacks, shots and clicks keeps a sound human sound.
  pub run-IsSound :
      (es : List Event) (s : Site G) → IsSound s.scene.human → IsSound (run engine es s).scene.human
  run-IsSound es s v = (run-IsSoundAt es s (record { human = v })).human
