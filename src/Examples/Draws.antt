-- ===== src/Examples/Draws.antt =====
-- Random numbers: sources/core/SynchronizedRandom.cpp.
use griefly.Prelude.{ℕ, ◌+◌, ◌*◌, ◌≡◌, arith}
use griefly.Random.{Engine, new_random, set_params}
use griefly.Random.Restored.{generate_times, set_params_restores}

-- A generator that counts.
abbrev counter : Engine ℕ
counter = record {
  seed = λ s. s * 7;
  draw = λ g. (g * 3, g + 1);
  discard = λ n g. g + n;
  discard-zero = λ g. omega arith;
  discard-suc = λ n g. omega arith;
}

set_params_restores_example :
    let r = generate_times counter 5 (new_random counter 11) in
    set_params counter r.seed r.calls_counter (new_random counter 4) ≡ r
set_params_restores_example = set_params_restores counter 5 11 (new_random counter 4) (omega arith)
