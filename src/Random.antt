-- ===== src/Random.antt =====
-- The random numbers that all clients draw alike: sources/core/SynchronizedRandom.h and
-- SynchronizedRandom.cpp. The generator is the standard library's, and a parameter, with what its
-- `discard` is documented to do: to draw so many numbers.
pub mod Restored
use griefly.Prelude.{ℕ, suc, zero, ◌+◌, ◌%◌, ◌^◌, ◌≡◌}

pub record Engine (G : Type 0) : Type 0 where
  pub seed : ℕ → G
  pub draw : G → ℕ × G
  pub discard : ℕ → G → G
  pub discard-zero : (g : G) → discard 0 g ≡ g
  pub discard-suc : (n : ℕ) (g : G) → discard (suc n) g ≡ discard n (draw g).1

pub record SynchronizedRandom (G : Type 0) : Type 0 where
  pub seed : ℕ
  pub calls_counter : ℕ
  pub generator : G

module _ {G : Type 0} (engine : Engine G) where
  -- SynchronizedRandom::SynchronizedRandom, for what qrand gives
  unfoldable pub new_random : ℕ → SynchronizedRandom G
  new_random s = record { seed = s; calls_counter = 0; generator = engine.seed s }

  -- Generate
  unfoldable pub generate : SynchronizedRandom G → ℕ × SynchronizedRandom G
  generate r =
      let drawn = engine.draw r.generator in
      (drawn.0, record r { calls_counter = (r.calls_counter + 1) % 2 ^ 32; generator = drawn.1 })

  -- InsertParamsIntoGenerator
  unfoldable pub insert_params_into_generator : SynchronizedRandom G → SynchronizedRandom G
  insert_params_into_generator r = record r {
    generator = engine.discard r.calls_counter (engine.seed r.seed);
  }

  -- SetParams
  unfoldable pub set_params : ℕ → ℕ → SynchronizedRandom G → SynchronizedRandom G
  set_params new_seed new_calls_counter r =
      insert_params_into_generator (record r { calls_counter = new_calls_counter; seed = new_seed })
