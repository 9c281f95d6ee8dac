-- ===== src/Examples/Bodies.antt =====
-- Humans: sources/core/objects/mobs/Human.cpp.
use griefly.Prelude.{
  ℕ, ◌+◌, ◌*◌, ◌≡◌, refl, true, false, some, none, [], ◌∷◌, replicate, arith, All-replicate,
}
use griefly.Prelude.Int.{pos, ◌-ℤ◌, ◌≤ℤ◌, int_laws}
use griefly.HumanInterface.Indicators.{health_state, health_state-Shows, Shows}
use griefly.Human.{in_human, new_human, calculate_health}
use griefly.Human.Living.{Scene, live, live_through, is_uncomfortable}
use griefly.Human.Dying.Airless.{starving_human_dies}
use griefly.Human.Breathing.{live-Leaves, Leaves}
use griefly.Human.Recovery.{IsGood, live_through-Recovered, Recovered}
use griefly.Human.Attacks.{hand, medicine, live_tick, is_attacked, is_hit, is_clicked, run}
use griefly.Human.Attacks.Soundness.{IsSound, new_human-IsSound}
use griefly.Human.Attacks.Histories.{run-IsSound}
use griefly.Atmos.Gas.{AtmosData}
use griefly.Random.{Engine, new_random}

-- A generator that counts.
abbrev counter : Engine ℕ
counter = record {
  seed = λ s. s * 7;
  draw = λ g. (g * 3, g + 1);
  discard = λ n g. g + n;
  discard-zero = λ g. omega arith;
  discard-suc = λ n g. omega arith;
}

abbrev vacuum : AtmosData
vacuum = record {
  gases = record { oxygen = pos 0; co2 = pos 7; nytrogen = pos 0; plasma = pos 60 };
  energy = pos 0;
  pressure = pos 0;
  volume = pos 1;
  temperature = pos 0;
  fire = false;
}

abbrev station : AtmosData
station = record {
  gases = record { oxygen = pos 230; co2 = pos 1; nytrogen = pos 750; plasma = pos 36 };
  energy = pos 1000;
  pressure = pos 9810;
  volume = pos 1;
  temperature = pos 40;
  fire = false;
}

abbrev clean_station : AtmosData
clean_station = record station { gases = record station.gases { plasma = pos 0 } }

clean_station-IsGood : IsGood clean_station
unfolding is_uncomfortable ◌-ℤ◌
clean_station-IsGood = record { has_oxygen = omega arith; is_warm = refl; is_clean = omega arith }

abbrev newcomer : Scene ℕ
unfolding new_human new_random
newcomer = record { human = new_human in_human; air = none; random = new_random counter 3 }

health_state-Shows_example : Shows (pos 7400) (health_state (pos 7400))
health_state-Shows_example = health_state-Shows (pos 7400) (omega arith)

starving_human_dies_example :
    (live_through counter (replicate 151 (1, vacuum)) newcomer).human.dead ≡ true
unfolding newcomer calculate_health
starving_human_dies_example =
    starving_human_dies counter (replicate 151 (1, vacuum)) newcomer refl (omega int_laws)
      (All-replicate {A = ℕ × AtmosData} (λ a. a.1.gases.oxygen ≤ℤ pos 0) 151 (1, vacuum)
        (omega arith))
      (omega arith)

live-Leaves_example :
    Leaves (live counter 6 true (record newcomer { air = some station })).air station
unfolding newcomer
live-Leaves_example = live-Leaves counter 6 station newcomer refl

live_through-Recovered_example :
    let gasping = record newcomer {
      human = record newcomer.human { suffocation_damage = pos 70 };
    } in
    Recovered 2 gasping.human
      (live_through counter ((1, clean_station) ∷ (2, clean_station) ∷ []) gasping).human
unfolding newcomer is_uncomfortable calculate_health
live_through-Recovered_example =
    live_through-Recovered counter ((1, clean_station) ∷ (2, clean_station) ∷ [])
      (record newcomer { human = record newcomer.human { suffocation_damage = pos 70 } })
      (clean_station-IsGood, (clean_station-IsGood, _)) refl (omega arith) (omega int_laws)

run-IsSound_example :
    IsSound
      (run counter
        (is_attacked (hand (pos 1))
          ∷ is_clicked
          ∷ is_hit (pos 9) (pos 0)
          ∷ live_tick 13 true (some vacuum)
          ∷ is_attacked (medicine (pos 1000) (pos 0) (pos 0))
          ∷ [])
        (record { scene = newcomer; bloody = some false })).scene.human
unfolding newcomer
run-IsSound_example =
    run-IsSound counter _ (record { scene = newcomer; bloody = some false })
      (new_human-IsSound in_human)
