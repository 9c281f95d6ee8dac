-- ===== src/Human/Attacks/Soundness.antt =====
-- What holds of a sound human, and that each change of the body keeps it.
use griefly.Prelude.{ℕ, ◌≡◌, Bool, true, false, if◌then◌else◌, arith}
use griefly.Prelude.Int.{ℤ, pos, ◌≤ℤ◌, int_laws}
use griefly.HumanInterface.Indicators.{Indicators}
use griefly.Human.{
  Human, Mind, Notice, post, is_minded, apply_burn_damage, apply_suffocation_damage,
  apply_toxins_damage, set_laying, lie_down, stand_up, add_laying_timer, regeneration, on_death,
  new_human,
}
use griefly.Human.Living.{Scene, suffer_temperature, tick_timer, die, lie_if_standing}
use griefly.Human.Attacks.{knock_out, Site, hurt_brute, click_lay}
use griefly.Atmos.Gas.{AtmosData}

-- No damage and no timer is below zero; the posture is what `lying` says in the passability, the
-- level of the picture, its angle and the button; and the dead do not tick and have no player.
pub record IsSound (h : Human) : Type 0 where
  pub suffocation_pos : pos 0 ≤ℤ h.suffocation_damage
  pub toxins_pos : pos 0 ≤ℤ h.toxins_damage
  pub burn_pos : pos 0 ≤ℤ h.burn_damage
  pub brute_pos : pos 0 ≤ℤ h.brute_damage
  pub timer_pos : pos 0 ≤ℤ h.lay_timer
  pub passable_lem : h.passable ≡ (if h.lying then 100 else 30)
  pub level_lem : h.visible_level ≡ (if h.lying then 8 else 9)
  pub angle_lem : h.angle ≡ (if h.lying then 90 else 0)
  pub button_lem : h.interface.is_laying ≡ h.lying
  pub dead_freq : h.dead ≡ true → h.freq ≡ 0
  pub dead_mind : h.dead ≡ true → is_minded h.mind ≡ false
  pub alive_freq : h.dead ≡ false → h.freq ≡ 1

pub new_human-IsSound : (mind : Mind) → IsSound (new_human mind)
unfolding new_human
new_human-IsSound mind = ground arith

pub hurt-IsSound : (n : ℤ) (h : Human) → IsSound h → IsSound (apply_burn_damage n h)
unfolding apply_burn_damage
hurt-IsSound n h v = grind arith

pub set_laying-IsSound : (b : Bool) (h : Human) → IsSound h → IsSound (set_laying b h)
unfolding set_laying lie_down stand_up
set_laying-IsSound b h v = grind arith

pub tick_timer-IsSound : (h : Human) → IsSound h → IsSound (tick_timer h)
unfolding tick_timer
tick_timer-IsSound h v = grind arith

pub on_death-IsSound : (h : Human) → IsSound h → IsSound (on_death h)
unfolding on_death
on_death-IsSound h v = grind arith

pub suffocation-IsSound : (n : ℤ) (h : Human) → IsSound h → IsSound (apply_suffocation_damage n h)
unfolding apply_suffocation_damage
suffocation-IsSound n h v = grind arith

pub toxins-IsSound : (n : ℤ) (h : Human) → IsSound h → IsSound (apply_toxins_damage n h)
unfolding apply_toxins_damage
toxins-IsSound n h v = grind arith

pub hurt_brute-IsSound : (n : ℤ) (h : Human) → IsSound h → IsSound (hurt_brute n h)
unfolding hurt_brute
hurt_brute-IsSound n h v = grind arith

pub timer-IsSound : (n : ℤ) (h : Human) → pos 0 ≤ℤ n → IsSound h → IsSound (add_laying_timer n h)
unfolding add_laying_timer
timer-IsSound n h p v = grind int_laws

pub if-IsSound : (b : Bool) (h g : Human) → IsSound h → IsSound g → IsSound (if b then h else g)
if-IsSound true h g v w = v
if-IsSound false h g v w = w

pub post-IsSound : (n : Notice) (h : Human) → IsSound h → IsSound (post n h)
post-IsSound n h v = record {
  suffocation_pos = v.suffocation_pos;
  toxins_pos = v.toxins_pos;
  burn_pos = v.burn_pos;
  brute_pos = v.brute_pos;
  timer_pos = v.timer_pos;
  passable_lem = v.passable_lem;
  level_lem = v.level_lem;
  angle_lem = v.angle_lem;
  button_lem = v.button_lem;
  dead_freq = v.dead_freq;
  dead_mind = v.dead_mind;
  alive_freq = v.alive_freq;
}

pub suffer_temperature-IsSound :
    (tick : ℕ) (air : AtmosData) (h : Human) → IsSound h → IsSound (suffer_temperature tick air h)
unfolding suffer_temperature
suffer_temperature-IsSound tick air h v =
    let hurt = hurt-IsSound _ h v in
    if-IsSound _ _ _ (if-IsSound _ _ _ (post-IsSound _ _ hurt) hurt) v

pub regeneration-IsSound : (h : Human) → IsSound h → IsSound (regeneration h)
unfolding regeneration
regeneration-IsSound h v = grind (arith, suffocation-IsSound _ h v)

pub knock_out-IsSound : (h : Human) → IsSound h → IsSound (knock_out h)
knock_out-IsSound h v =
    post-IsSound _ _ (timer-IsSound (pos 100) _ (omega arith) (set_laying-IsSound true h v))

pub click_lay-IsSound : (h : Human) → IsSound h → IsSound (click_lay h)
unfolding click_lay
click_lay-IsSound h v =
    if-IsSound h.lying _ _ (set_laying-IsSound false h v)
      (set_laying-IsSound true _ (timer-IsSound (pos 50) h (omega arith) v))

-- The human of a scene.
pub record IsSoundIn {G : Type 0} (s : Scene G) : Type 0 where
  pub human : IsSound s.human

pub record IsSoundAt {G : Type 0} (s : Site G) : Type 0 where
  pub human : IsSound s.scene.human

pub if_scene-IsSoundIn :
    {G : Type 0} (b : Bool) (s t : Scene G)
    → IsSoundIn s
    → IsSoundIn t
    → IsSoundIn (if b then s else t)
if_scene-IsSoundIn true s t v w = v
if_scene-IsSoundIn false s t v w = w

pub if_site-IsSoundAt :
    {G : Type 0} (b : Bool) (s t : Site G)
    → IsSoundAt s
    → IsSoundAt t
    → IsSoundAt (if b then s else t)
if_site-IsSoundAt true s t v w = v
if_site-IsSoundAt false s t v w = w

pub environment-IsSound :
    (i : Indicators) (h : Human)
    → i.is_laying ≡ h.interface.is_laying
    → IsSound h
    → IsSound (record h { interface = i })
environment-IsSound i h e v = grind arith

pub die-IsSoundIn : {G : Type 0} (s : Scene G) → IsSoundIn s → IsSoundIn (die s)
unfolding die
die-IsSoundIn s v = if_scene-IsSoundIn _ _ _ (record { human = on_death-IsSound s.human v.human }) v

pub lie_if_standing-IsSound : (h : Human) → IsSound h → IsSound (lie_if_standing h)
lie_if_standing-IsSound h v = if-IsSound h.lying _ _ v (set_laying-IsSound true h v)
