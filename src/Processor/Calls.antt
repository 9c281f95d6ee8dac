-- ===== src/Processor/Calls.antt =====
-- Which objects get their Process in a pass.
use griefly.Prelude.{
  ℕ, zero, suc, ◌+◌, ◌≤◌, ◌≡◌, refl, ap, inl, inr, arith, Bool-cases, if◌then◌else◌, Option,
  Option-cases, none, some, List, [], ◌∷◌, length, drop, get_elem?-append,
}
use griefly.Prelude.Int.{ℤ}
use griefly.Processor.{
  ObjectProcessor, add, add_all, drop_object, ticking, is_due, turn, run_from, run_process,
}
use griefly.Processor.Pass.{At, At-some}

-- The objects in front of the first one that is not valid or does not tick, as far as they are due.
unfoldable pub due_before_stale : (ℕ → Option ℤ) → ℤ → List ℕ → List ℕ
due_before_stale freq game_tick [] = []
due_before_stale freq game_tick (object ∷ objects) = elim (ticking (freq object)) [
  | none ↦ []
  | some every ↦
      if is_due game_tick every
      then object ∷ due_before_stale freq game_tick objects
      else due_before_stale freq game_tick objects
]

-- Process of one object after the other.
unfoldable pub process_each :
    {World : Type 0} → (World → ℕ → World × List ℕ) → List ℕ → World → World
process_each process [] w = w
process_each process (object ∷ objects) w = process_each process objects (process w object).0

Starts : List ℕ → ObjectProcessor → Type 0
Starts xs p = (k a : ℕ) → At xs k a → At p.objects k a

add-Starts : (xs : List ℕ) (id : ℕ) (p : ObjectProcessor) → Starts xs p → Starts xs (add id p)
unfolding add Starts
add-Starts xs id p starts k a e = elim (Bool-cases (p.objects_lookup id)) [
  | inl t ↦ rw t (starts k a e)
  | inr t ↦ rw t (get_elem?-append p.objects (id ∷ []) k a (starts k a e))
]

add_all-Starts : (xs ids : List ℕ) (p : ObjectProcessor) → Starts xs p → Starts xs (add_all ids p)
unfolding add_all
add_all-Starts xs [] p starts = starts
add_all-Starts xs (id ∷ ids) p starts = add_all-Starts xs ids (add id p) (add-Starts xs id p starts)

drop-At : (xs : List ℕ) (i a : ℕ) → At xs i a → drop i xs ≡ a ∷ drop (suc i) xs
drop-At [] i a e = absurd (grind (arith, e))
drop-At (x ∷ xs) zero a e = ap (λ b. b ∷ xs) (grind (arith, e))
drop-At (x ∷ xs) (suc i) a e = drop-At xs i a e

drop-end : (xs : List ℕ) (i : ℕ) → length xs ≤ i → drop i xs ≡ []
drop-end [] zero h = refl
drop-end [] (suc i) h = refl
drop-end (x ∷ xs) zero h = absurd (omega arith)
drop-end (x ∷ xs) (suc i) h = drop-end xs i (omega arith)

module _ {World : Type 0} (freq : ℕ → Option ℤ) (process : World → ℕ → World × List ℕ)
    (game_tick : ℤ) where
  Calls : ℕ → ℕ → List ℕ → World → ObjectProcessor → Type 0
  Calls n i xs w p =
      (q : ObjectProcessor) × (run_from (λ v. freq) process game_tick n i w p
        ≡ some (process_each process (due_before_stale freq game_tick (drop i xs)) w, q))

  run_from-Calls :
      (n i : ℕ) (xs : List ℕ) (w : World) (p : ObjectProcessor)
      → n + i ≡ length xs
      → Starts xs p
      → Calls n i xs w p
  unfolding Calls run_from Starts process_each due_before_stale turn
  run_from-Calls zero i xs w p h starts = (p, rw (drop-end xs i (omega (arith, h))) refl)
  run_from-Calls (suc n) i xs w p h starts =
      let (object, at) = At-some xs i (omega (arith, h)) in
      let here = starts i object at in
      elim (Option-cases (ticking (freq object))) [
        | inl stale ↦
            (drop_object i object p, rw (drop-At xs i object at) (grind (arith, here, stale)))
        | inr (every, ticks) ↦ elim (Bool-cases (is_due game_tick every)) [
          | inl t ↦
              let (q, ran) =
                run_from-Calls n (suc i) xs (process w object).0 (add_all (process w object).1 p)
                  (omega (arith, h)) (add_all-Starts xs (process w object).1 p starts) in
              (q, rw (drop-At xs i object at) (grind (arith, here, ticks, t, ran)))
          | inr t ↦
              let (q, ran) = run_from-Calls n (suc i) xs w p (omega (arith, h)) starts in
              (q, rw (drop-At xs i object at) (grind (arith, here, ticks, t, ran)))
        ]
      ]

  -- When Process changes no validity and no frequency, RunProcess calls Process exactly for
  -- the objects that are due and stand in front of the first stale one, each once and in the list's order: an
  -- object that is stale ends the pass, and no object behind it is called.
  pub run_process_calls :
      (w : World) (p : ObjectProcessor)
      → (q : ObjectProcessor) × (run_process (λ v. freq) process game_tick w p
          ≡ some (process_each process (due_before_stale freq game_tick p.objects) w, q))
  unfolding run_process Calls Starts
  run_process_calls w p =
      run_from-Calls (length p.objects) 0 p.objects w p (omega arith) (λ k a e. e)
