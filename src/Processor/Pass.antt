-- ===== src/Processor/Pass.antt =====
-- A pass over the objects stays in range and keeps the list and the set of ids in step.
use griefly.Prelude.{
  ℕ, zero, suc, ◌+◌, ◌-◌, ◌≤◌, ◌<◌, ◌==◌, ◌≡◌, ◌≢◌, ◌⊎◌, inl, inr, refl, sym, ap, ◌∙◌, arith, subst,
  Bool, Bool-cases, true, false, Option, Option-cases, some, List, [], ◌∷◌, ◌++◌, length,
  length-append, take, get_elem?, set, get_elem?-set_self, get_elem?-set_ne, get_elem?-append_cases,
  get_elem?-append, get_elem?-last, get_elem?-lt,
}
use griefly.Prelude.Int.{ℤ}
use griefly.Processor.{
  ObjectProcessor, nothing_ticks, add, add_all, swap_out, drop_object, insert, erase, ticking,
  is_due, turn, run_from, run_process,
}

abbrev pub At : List ℕ → ℕ → ℕ → Type 0
At xs i a = get_elem? xs i ≡ some a

pub record IsConsistent (p : ObjectProcessor) : Type 0 where
  pub once : (i j a : ℕ) → At p.objects i a → At p.objects j a → i ≡ j
  pub marked : (i a : ℕ) → At p.objects i a → p.objects_lookup a ≡ true
  pub found : (a : ℕ) → p.objects_lookup a ≡ true → (i : ℕ) × At p.objects i a

pub nothing_ticks-IsConsistent : IsConsistent nothing_ticks
nothing_ticks-IsConsistent = record {
  once = λ i j a e e'. absurd (grind (arith, e));
  marked = λ i a e. absurd (grind (arith, e));
  found = λ a e. absurd (grind (arith, e));
}

insert_self : (id : ℕ) (lookup : ℕ → Bool) → insert id lookup id ≡ true
insert_self id lookup = grind arith

insert_other : (id a : ℕ) (lookup : ℕ → Bool) → lookup a ≡ true → insert id lookup a ≡ true
insert_other id a lookup h = elim (Bool-cases (a == id)) [ inl t ↦ rw t refl | inr t ↦ rw t h ]

insert_cases :
    (id a : ℕ) (lookup : ℕ → Bool) → insert id lookup a ≡ true → (a ≡ id) ⊎ (lookup a ≡ true)
insert_cases id a lookup h = elim (Bool-cases (a == id)) [
  | inl t ↦ inl (grind (arith, t))
  | inr t ↦ inr (grind (arith, t, h))
]

erase_other : (id a : ℕ) (lookup : ℕ → Bool) → a ≢ id → lookup a ≡ true → erase id lookup a ≡ true
erase_other id a lookup ne h = elim (Bool-cases (a == id)) [
  | inl t ↦ absurd (ne (grind (arith, t)))
  | inr t ↦ rw t h
]

erase_cases :
    (id a : ℕ) (lookup : ℕ → Bool) → erase id lookup a ≡ true → (a ≢ id) × (lookup a ≡ true)
erase_cases id a lookup h = elim (Bool-cases (a == id)) [
  | inl t ↦ absurd (grind (arith, t, h))
  | inr t ↦ (λ same. grind (arith, t, same), grind (arith, t, h))
]

module _ (p : ObjectProcessor) (ok : IsConsistent p) (id : ℕ)
    (new : p.objects_lookup id ≡ false) where
  abbrev added : ObjectProcessor
  added = record { objects = p.objects ++ (id ∷ []); objects_lookup = insert id p.objects_lookup }

  not_listed : (i : ℕ) → ¬ At p.objects i id
  not_listed i e = absurd (grind (arith, ok.marked i id e, new))

  now-At : (i a : ℕ) → At added.objects i a → (i ≡ length p.objects) × (id ≡ a) ⊎ At p.objects i a
  now-At i a e = get_elem?-append_cases p.objects id a i e

  added-IsConsistent : IsConsistent added
  added-IsConsistent = record {
    once = λ i j a e e'. elim (now-At i a e) [
      | inl new_i ↦ elim (now-At j a e') [
        | inl new_j ↦ new_i.0 ∙ sym new_j.0
        | inr old_j ↦ absurd (not_listed j (old_j ∙ ap some (sym new_i.1)))
      ]
      | inr old_i ↦ elim (now-At j a e') [
        | inl new_j ↦ absurd (not_listed i (old_i ∙ ap some (sym new_j.1)))
        | inr old_j ↦ ok.once i j a old_i old_j
      ]
    ];
    marked = λ i a e. elim (now-At i a e) [
      | inl new_i ↦
          subst (λ b. insert id p.objects_lookup b ≡ true) new_i.1 (insert_self id p.objects_lookup)
      | inr old_i ↦ insert_other id a p.objects_lookup (ok.marked i a old_i)
    ];
    found = λ a e. elim (insert_cases id a p.objects_lookup e) [
      | inl same ↦ (length p.objects, get_elem?-last p.objects id ∙ ap some (sym same))
      | inr old ↦ let (i, at) = ok.found a old in (i, get_elem?-append p.objects (id ∷ []) i a at)
    ];
  }

pub add-IsConsistent : (id : ℕ) (p : ObjectProcessor) → IsConsistent p → IsConsistent (add id p)
unfolding add
add-IsConsistent id p ok = elim (Bool-cases (p.objects_lookup id)) [
  | inl t ↦ rw t ok
  | inr t ↦ rw t (added-IsConsistent p ok id t)
]

add_all-IsConsistent :
    (ids : List ℕ) (p : ObjectProcessor) → IsConsistent p → IsConsistent (add_all ids p)
unfolding add_all
add_all-IsConsistent [] p ok = ok
add_all-IsConsistent (id ∷ ids) p ok =
    add_all-IsConsistent ids (add id p) (add-IsConsistent id p ok)

take-At : (n j a : ℕ) (xs : List ℕ) → At (take n xs) j a → (j < n) × At xs j a
take-At zero j a xs e = absurd (grind (arith, e))
take-At (suc n) j a [] e = absurd (grind (arith, e))
take-At (suc n) zero a (x ∷ xs) e = (omega arith, e)
take-At (suc n) (suc j) a (x ∷ xs) e = let (h, at) = take-At n j a xs e in (omega arith, at)

At-take : (n j a : ℕ) (xs : List ℕ) → j < n → At xs j a → At (take n xs) j a
At-take zero j a xs h e = absurd (omega arith)
At-take (suc n) j a [] h e = absurd (grind (arith, e))
At-take (suc n) zero a (x ∷ xs) h e = e
At-take (suc n) (suc j) a (x ∷ xs) h e = At-take n j a xs (omega arith) e

pub At-some : (xs : List ℕ) (i : ℕ) → i < length xs → (a : ℕ) × At xs i a
At-some [] i h = absurd (omega arith)
At-some (x ∷ xs) zero h = (x, refl)
At-some (x ∷ xs) (suc i) h = At-some xs i (omega arith)

At-last : (xs : List ℕ) (i object : ℕ) → At xs i object → (last : ℕ) × At xs (length xs - 1) last
At-last xs i object e = At-some xs (length xs - 1) (omega (arith, get_elem?-lt xs i object e))

-- The index that an object of the swapped list comes from.
Source : ℕ → ℕ → ℕ → ℕ → Type 0
Source i n j k = (j ≡ i) × (k ≡ n) ⊎ (j ≢ i) × (k ≡ j)

module _ (xs : List ℕ) (i object last : ℕ) (at : At xs i object)
    (last_at : At xs (length xs - 1) last) where
  swap_out_as : swap_out i xs ≡ take (length xs - 1) (set xs i last)
  unfolding swap_out
  swap_out_as = grind (arith, last_at)

  swapped_from :
      (j a : ℕ)
      → At (swap_out i xs) j a
      → (j < length xs - 1) × ((k : ℕ) × Source i (length xs - 1) j k × At xs k a)
  unfolding Source
  swapped_from j a e =
      let (h, in_set) =
        take-At (length xs - 1) j a (set xs i last)
          (ap (λ ys. get_elem? ys j) (sym swap_out_as) ∙ e) in
      (
        h,
        elim (Bool-cases (j == i)) [
          | inl t ↦
              let same : j ≡ i = grind (arith, t) in
              let self = get_elem?-set_self xs i last (get_elem?-lt xs i object at) in
              (length xs - 1, inl (same, refl), last_at ∙ grind (arith, self, in_set, same))
          | inr t ↦
              let ne : j ≢ i = λ s. grind (arith, t, s) in
              (j, inr (ne, refl), sym (get_elem?-set_ne xs i j last (λ s. ne (sym s))) ∙ in_set)
        ],
      )

  swapped_to : (k a : ℕ) → At xs k a → k ≢ i → (j : ℕ) × At (swap_out i xs) j a
  swapped_to k a e ne =
      let inside = get_elem?-lt xs k a e in
      let here = get_elem?-lt xs i object at in
      let back = sym swap_out_as in
      elim (Bool-cases (k == length xs - 1)) [
        | inl t ↦
            let same : last ≡ a = grind (arith, last_at, e, t) in
            (
              i,
              ap (λ ys. get_elem? ys i) swap_out_as
                  ∙ At-take (length xs - 1) i a (set xs i last) (grind (arith, t, here, ne))
                      (get_elem?-set_self xs i last here ∙ ap some same),
            )
        | inr t ↦ (
          k,
          ap (λ ys. get_elem? ys k) swap_out_as
              ∙ At-take (length xs - 1) k a (set xs i last) (grind (arith, t))
                  (get_elem?-set_ne xs i k last (λ s. ne (sym s)) ∙ e),
        )
      ]

module _ (p : ObjectProcessor) (ok : IsConsistent p) (i object : ℕ)
    (at : At p.objects i object) where
  drop_object-IsConsistent : IsConsistent (drop_object i object p)
  unfolding Source
  drop_object-IsConsistent =
      let (last, last_at) = At-last p.objects i object at in
      record {
        once = λ j l a e e'.
            let (hj, (kj, from_j, at_j)) = swapped_from p.objects i object last at last_at j a e in
            let (hl, (kl, from_l, at_l)) = swapped_from p.objects i object last at last_at l a e' in
            let same = ok.once kj kl a at_j at_l in grind (arith, hj, hl, from_j, from_l, same);
        marked = λ j a e.
            let (hj, (kj, from_j, at_j)) = swapped_from p.objects i object last at last_at j a e in
            erase_other object a p.objects_lookup
              (λ same.
                let k = ok.once kj i a at_j (at ∙ ap some (sym same)) in
                grind (arith, hj, from_j, k))
              (ok.marked kj a at_j);
        found = λ a e.
            let (ne, old) = erase_cases object a p.objects_lookup e in
            let (k, at_k) = ok.found a old in
            swapped_to p.objects i object last at last_at k a at_k
              (λ same. ne (grind (arith, at, at_k, same)));
      }

pub length-add : (id : ℕ) (p : ObjectProcessor) → length p.objects ≤ length (add id p).objects
unfolding add
length-add id p = elim (Bool-cases (p.objects_lookup id)) [
  | inl t ↦ rw t (omega arith)
  | inr t ↦ rw t (omega (arith, length-append p.objects (id ∷ [])))
]

length-add_all :
    (ids : List ℕ) (p : ObjectProcessor) → length p.objects ≤ length (add_all ids p).objects
unfolding add_all
length-add_all [] p = omega arith
length-add_all (id ∷ ids) p = omega (arith, length-add id p, length-add_all ids (add id p))

module _ {World : Type 0} (freq : World → ℕ → Option ℤ) (process : World → ℕ → World × List ℕ)
    (game_tick : ℤ) where
  turn-IsConsistent :
      (object : ℕ) (every : ℤ) (w : World) (p : ObjectProcessor)
      → IsConsistent p
      → IsConsistent (turn freq process game_tick object every w p).1
  unfolding turn
  turn-IsConsistent object every w p ok = elim (Bool-cases (is_due game_tick every)) [
    | inl t ↦ rw t (add_all-IsConsistent (process w object).1 p ok)
    | inr t ↦ rw t ok
  ]

  length-turn :
      (object : ℕ) (every : ℤ) (w : World) (p : ObjectProcessor)
      → length p.objects ≤ length (turn freq process game_tick object every w p).1.objects
  unfolding turn
  length-turn object every w p = elim (Bool-cases (is_due game_tick every)) [
    | inl t ↦ rw t (length-add_all (process w object).1 p)
    | inr t ↦ rw t (omega arith)
  ]

  run_from-IsConsistent :
      (n i : ℕ) (w : World) (p : ObjectProcessor)
      → IsConsistent p
      → n + i ≤ length p.objects
      → (v : World) × (q : ObjectProcessor) × (run_from freq process game_tick n i w p
          ≡ some (v, q))
        × IsConsistent q
  unfolding run_from
  run_from-IsConsistent zero i w p ok h = (w, p, refl, ok)
  run_from-IsConsistent (suc n) i w p ok h =
      let (object, at) = At-some p.objects i (omega arith) in
      elim (Option-cases (ticking (freq w object))) [
        | inl stale ↦ (
          w,
          drop_object i object p,
          grind (arith, at, stale),
          drop_object-IsConsistent p ok i object at,
        )
        | inr (every, ticks) ↦
            let next = turn freq process game_tick object every w p in
            let (v, q, ran, ok_q) =
              run_from-IsConsistent n (suc i) next.0 next.1 (turn-IsConsistent object every w p ok)
                (omega (arith, length-turn object every w p)) in
            (v, q, grind (arith, at, ticks, ran), ok_q)
      ]

  -- RunProcess on a list without doubles that is in step with its set comes to an end, with no access out of
  -- range, whatever Process does to the world and whichever ids it adds, and leaves a list without
  -- doubles that is in step with its set.
  pub run_process-IsConsistent :
      (w : World) (p : ObjectProcessor)
      → IsConsistent p
      → (v : World) × (q : ObjectProcessor) × (run_process freq process game_tick w p ≡ some (v, q))
        × IsConsistent q
  unfolding run_process
  run_process-IsConsistent w p ok = run_from-IsConsistent (length p.objects) 0 w p ok (omega arith)
