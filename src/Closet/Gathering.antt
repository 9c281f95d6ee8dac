-- ===== src/Closet/Gathering.antt =====
-- What a closet takes in when it closes.
use griefly.Prelude.{
  ℕ, ◌+◌, ◌≤◌, ◌≡◌, ap, inl, inr, Bool, true, false, ◌==◌, if◌then◌else◌, List, [], ◌∷◌, ◌++◌,
  arith, Bool-cases, ==→≡,
}
use griefly.Closet.{
  is_locker, Site, remove_first, add_object, take_in, take_all, base_close, close_it,
}

abbrev pub times : ℕ → List ℕ → ℕ
times x [] = 0
times x (y ∷ ys) = (if y == x then 1 else 0) + times x ys

pub times-append : (x : ℕ) (xs ys : List ℕ) → times x (xs ++ ys) ≡ times x xs + times x ys
times-append x [] ys = omega arith
times-append x (y ∷ xs) ys = omega (arith, times-append x xs ys)

times-remove_first :
    (x id : ℕ) (xs : List ℕ)
    → 1 ≤ times id xs
    → times x (remove_first id xs) + (if id == x then 1 else 0) ≡ times x xs
unfolding remove_first
times-remove_first x id [] le = absurd (omega arith)
times-remove_first x id (y ∷ xs) le = elim (Bool-cases (y == id)) [
  | inl here ↦ rw here (rw (==→≡ y id here) (omega arith))
  | inr away ↦ rw away (omega (arith, times-remove_first x id xs (later away)))
]
  where
    later : (y == id) ≡ false → 1 ≤ times id xs
    later e = grind (arith, e, le)

abbrev met : ℕ → ℕ → ℕ
met id x = if id == x then 1 else 0

once : (id : ℕ) → met id id ≡ 1
once id = ground arith

module _ (fits : ℕ → Bool) where
  -- What goes into the closet of so many objects.
  abbrev goes : ℕ → ℕ → ℕ
  goes x n = if fits x then n else 0

  -- Each object that fits has gone from the tile into the closet, and no other.
  pub record Moves (x n : ℕ) (s t : Site) : Type 0 where
    pub left : times x t.tile + goes x n ≡ times x s.tile
    pub gained : times x t.closet.content ≡ times x s.closet.content + goes x n

  same-fits : (x id : ℕ) → (id == x) ≡ true → fits id ≡ fits x
  same-fits x id e = ap fits (==→≡ id x e)

  take_in-Moves :
      (x id : ℕ) (s : Site)
      → 1 ≤ times id s.tile
      → Moves x (if id == x then 1 else 0) s (take_in fits id s)
  unfolding take_in add_object
  take_in-Moves x id s le =
      let less = times-remove_first x id s.tile le in
      let more = times-append x s.closet.content (id ∷ []) in
      elim (Bool-cases (fits id)) [
        | inl fit ↦ rw fit (record {
          left = grind (arith, less, same-fits x id);
          gained = grind (arith, more, same-fits x id);
        })
        | inr unfit ↦ rw unfit (record {
          left = grind (arith, same-fits x id);
          gained = grind (arith, same-fits x id);
        })
      ]

  take_all-Moves :
      (x : ℕ) (ids : List ℕ) (s : Site)
      → ((y : ℕ) → times y ids ≤ times y s.tile)
      → Moves x (times x ids) s (take_all fits ids s)
  unfolding take_all
  take_all-Moves x [] s le = record { left = grind arith; gained = grind arith }
  take_all-Moves x (id ∷ ids) s le =
      let there : 1 ≤ times id s.tile = omega (arith, le id, once id) in
      let first : (y : ℕ) → Moves y (met id y) s (take_in fits id s) =
        λ y. take_in-Moves y id s there in
      let rest =
        take_all-Moves x ids (take_in fits id s) (λ y. grind (arith, (first y).left, le y)) in
      record {
        left = grind (arith, (first x).left, rest.left);
        gained = grind (arith, (first x).gained, rest.gained);
      }

  base_close-Moves : (x : ℕ) (s : Site) → Moves x (times x s.tile) s (base_close fits s)
  unfolding base_close
  base_close-Moves x s =
      let m = take_all-Moves x s.tile s (λ y. omega arith) in
      record { left = m.left; gained = m.gained }

  pub close_it-Moves : (x : ℕ) (s : Site) → Moves x (times x s.tile) s (close_it fits s)
  unfolding close_it
  close_it-Moves x s = elim (Bool-cases (is_locker s.closet.kind)) [
    | inl locker ↦
        rw locker
          (record { left = (base_close-Moves x s).left; gained = (base_close-Moves x s).gained })
    | inr other ↦ rw other (base_close-Moves x s)
  ]

  -- A closed closet takes in all that fits, and leaves the rest on the tile as it is.
  close_it_gathers :
      (x : ℕ) (s : Site)
      → let t = close_it fits s in
        (times x t.tile ≡ (if fits x then 0 else times x s.tile))
        × (times x t.closet.content ≡ (
            if fits x then times x s.closet.content + times x s.tile else times x s.closet.content))
  close_it_gathers x s =
      let m = close_it-Moves x s in (grind (arith, m.left), grind (arith, m.gained))
