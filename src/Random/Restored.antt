-- ===== src/Random/Restored.antt =====
-- A generator that is restored from its parameters goes on where it was.
use griefly.Prelude.{ℕ, suc, zero, ◌+◌, ◌%◌, ◌^◌, ◌<◌, ◌≡◌, sym, ap, ◌∙◌, arith}
use griefly.Random.{
  Engine, SynchronizedRandom, new_random, generate, set_params, insert_params_into_generator,
}

module _ {G : Type 0} (engine : Engine G) where
  -- The generator after so many calls of Generate.
  unfoldable pub generate_times : ℕ → SynchronizedRandom G → SynchronizedRandom G
  generate_times zero r = r
  generate_times (suc n) r = (generate engine (generate_times n r)).1

  discard-draw : (n : ℕ) (g : G) → engine.discard (suc n) g ≡ (engine.draw (engine.discard n g)).1
  discard-draw zero g =
      engine.discard-suc 0 g
      ∙ engine.discard-zero (engine.draw g).1
      ∙ ap (λ h. (engine.draw h).1) (sym (engine.discard-zero g))
  discard-draw (suc n) g =
      engine.discard-suc (suc n) g
      ∙ discard-draw n (engine.draw g).1
      ∙ ap (λ h. (engine.draw h).1) (sym (engine.discard-suc n g))

  abbrev after_calls : ℕ → ℕ → SynchronizedRandom G
  after_calls n s = record {
    seed = s;
    calls_counter = n;
    generator = engine.discard n (engine.seed s);
  }

  generate_times_lem :
      (n s : ℕ) → n < 2 ^ 32 → generate_times n (new_random engine s) ≡ after_calls n s
  unfolding generate_times new_random generate
  generate_times_lem zero s h = λ i. record {
    seed = s;
    calls_counter = 0;
    generator = sym (engine.discard-zero (engine.seed s)) i;
  }
  generate_times_lem (suc n) s h =
      ap (λ r. (generate engine r).1) (generate_times_lem n s (omega arith)) ∙ (λ i. record {
        seed = s;
        calls_counter = count i;
        generator = sym (discard-draw n (engine.seed s)) i;
      })
    where
      count : (n + 1) % 2 ^ 32 ≡ suc n
      count = omega arith

  -- After fewer than 2^32 numbers the seed and the counter are all that has to be sent or saved: SetParams with them
  -- turns any generator into one with the same state, which draws the same numbers from then on.
  pub set_params_restores :
      (n s : ℕ) (other : SynchronizedRandom G)
      → n < 2 ^ 32
      → let r = generate_times n (new_random engine s) in
        set_params engine r.seed r.calls_counter other ≡ r
  unfolding set_params insert_params_into_generator
  set_params_restores n s other h =
      let e = generate_times_lem n s h in
      ap (λ r. set_params engine r.seed r.calls_counter other) e ∙ sym e
