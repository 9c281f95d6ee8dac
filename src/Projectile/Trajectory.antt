-- ===== src/Projectile/Trajectory.antt =====
-- A projectile's movement leads to its target.
use griefly.Prelude.{
  ℕ, zero, suc, ◌+◌, ◌*◌, ◌≤◌, ◌<◌, ◌≡◌, ◌⊎◌, inl, inr, refl, sym, ap, ◌∙◌, arith, Bool, Bool-cases,
  true, false, ◌||◌, ◌&&◌, ◌==◌, ltb, if◌then◌else◌, Option, none, some, List, [], ◌∷◌,
}
use griefly.Prelude.Int.{ℤ, pos, negsuc, ◌+ℤ◌, ◌-ℤ◌, ◌*ℤ◌, ltb_ℤ, leb_ℤ, abs, int_laws, parts_of}
use griefly.Geometry.{Dir, Vector, add, scale, dir_to_vdir, index, dir_vectors}
use griefly.Projectile.{
  is_sideways, loops_from, make_movement_loops, diagonal, quadrant, make_movement_pattern,
}

-- A move by the vector of a step, if it has one.
abbrev pub after : Option Vector → (Vector → Option Vector) → Option Vector
after none f = none
after (some v) f = f v

-- Where a list of steps leads.
unfoldable pub follow : List Dir → Vector → Option Vector
follow [] p = some p
follow (d ∷ ds) p = after (dir_to_vdir d) (λ v. follow ds (add p v))

follow-cons :
    (d : Dir) (ds : List Dir) (v p : Vector)
    → dir_to_vdir d ≡ some v
    → follow (d ∷ ds) p ≡ follow ds (add p v)
unfolding follow
follow-cons d ds v p e = grind (arith, e)

-- A position and a number of steps each way.
abbrev at_end : Vector → Vector → ℕ → Vector → ℕ → Vector
at_end p v1 r1 v2 r2 = add (add p (scale v1 (pos r1))) (scale v2 (pos r2))

vector_ext : (a b : Vector) → a.x ≡ b.x → a.y ≡ b.y → a.z ≡ b.z → a ≡ b
vector_ext a b ex ey ez i = record { x = ex i; y = ey i; z = ez i }

times_suc : (a : ℤ) (m : ℕ) → a *ℤ pos (suc m) ≡ a *ℤ pos m +ℤ a
times_suc a m = omega int_laws

one_more_ℤ :
    (p a b : ℤ) (m n : ℕ) → p +ℤ a +ℤ a *ℤ pos m +ℤ b *ℤ pos n ≡ p +ℤ a *ℤ pos (suc m) +ℤ b *ℤ pos n
one_more_ℤ p a b m n = let e = parts_of (times_suc a m) in omega (int_laws, e)

other_more_ℤ :
    (p a b : ℤ) (m n : ℕ) → p +ℤ b +ℤ a *ℤ pos m +ℤ b *ℤ pos n ≡ p +ℤ a *ℤ pos m +ℤ b *ℤ pos (suc n)
other_more_ℤ p a b m n = let e = parts_of (times_suc b n) in omega (int_laws, e)

none_more_ℤ : (p a b : ℤ) → p +ℤ a *ℤ pos 0 +ℤ b *ℤ pos 0 ≡ p
none_more_ℤ p a b = omega int_laws

one_more : (p v w : Vector) (m n : ℕ) → at_end (add p v) v m w n ≡ at_end p v (suc m) w n
unfolding add scale
one_more p v w m n =
    vector_ext _ _ (one_more_ℤ p.x v.x w.x m n) (one_more_ℤ p.y v.y w.y m n)
      (one_more_ℤ p.z v.z w.z m n)

other_more : (p v w : Vector) (m n : ℕ) → at_end (add p w) v m w n ≡ at_end p v m w (suc n)
unfolding add scale
other_more p v w m n =
    vector_ext _ _ (other_more_ℤ p.x v.x w.x m n) (other_more_ℤ p.y v.y w.y m n)
      (other_more_ℤ p.z v.z w.z m n)

none_more : (p v w : Vector) → at_end p v 0 w 0 ≡ p
unfolding add scale
none_more p v w =
    vector_ext _ _ (none_more_ℤ p.x v.x w.x) (none_more_ℤ p.y v.y w.y) (none_more_ℤ p.z v.z w.z)

-- The rounds that are left make r1 steps one way and r2 the other: they take turns until the second
-- way is done.
TakesTurns : Bool → ℕ → ℕ → ℕ → ℕ → Type 0
TakesTurns true i b r1 r2 = (i + 2 * r2 ≡ 2 * b) × (r2 ≤ r1)
TakesTurns false i b r1 r2 =
    (1 ≤ r2) × (i + 2 * r2 ≡ 2 * b + 1) × (r2 ≤ r1 + 1) ⊎ (r2 ≡ 0) × (2 * b ≤ i)

module _ (d1 d2 : Dir) (v1 v2 : Vector) (e1 : dir_to_vdir d1 ≡ some v1)
    (e2 : dir_to_vdir d2 ≡ some v2) where
  Leads : ℕ → ℕ → Bool → ℕ → ℕ → ℕ → Type 0
  Leads n i shuffle b r1 r2 =
      (p : Vector)
      → follow (loops_from n i shuffle (pos (2 * b) -ℤ pos 1) d1 d2) p ≡ some (at_end p v1 r1 v2 r2)

  first_way :
      (n i b r1 r2 : ℕ) (shuffle : Bool)
      → (shuffle || ltb_ℤ (pos (2 * b) -ℤ pos 1) (pos i)) ≡ true
      → Leads n (i + 1) false b r1 r2
      → Leads (suc n) i shuffle b (suc r1) r2
  unfolding Leads loops_from
  first_way n i b r1 r2 shuffle t next p =
      rw t (follow-cons d1 _ v1 p e1 ∙ next (add p v1) ∙ ap some (one_more p v1 v2 r1 r2))

  second_way :
      (n i b r1 r2 : ℕ)
      → ltb_ℤ (pos (2 * b) -ℤ pos 1) (pos i) ≡ false
      → Leads n (i + 1) true b r1 r2
      → Leads (suc n) i false b r1 (suc r2)
  unfolding Leads loops_from
  second_way n i b r1 r2 t next p =
      rw t (follow-cons d2 _ v2 p e2 ∙ next (add p v2) ∙ ap some (other_more p v1 v2 r1 r2))

  late : (b i : ℕ) → 2 * b ≤ i → ltb_ℤ (pos (2 * b) -ℤ pos 1) (pos i) ≡ true
  late b i h = grind int_laws

  early : (b i : ℕ) → i < 2 * b → ltb_ℤ (pos (2 * b) -ℤ pos 1) (pos i) ≡ false
  early b i h = grind int_laws

  no_way : (i b : ℕ) (shuffle : Bool) → Leads 0 i shuffle b 0 0
  unfolding Leads loops_from follow
  no_way i b shuffle p = ap some (sym (none_more p v1 v2))

  leads :
      (n i b r1 r2 : ℕ) (shuffle : Bool)
      → n ≡ r1 + r2
      → TakesTurns shuffle i b r1 r2
      → Leads n i shuffle b r1 r2
  unfolding TakesTurns
  leads zero i b zero zero shuffle h t = no_way i b shuffle
  leads zero i b zero (suc r2) shuffle h t = absurd (omega arith)
  leads zero i b (suc r1) r2 shuffle h t = absurd (omega arith)
  leads (suc n) i b zero r2 true h t = absurd (omega (arith, t))
  leads (suc n) i b (suc r1) zero true h t =
      first_way n i b r1 0 true refl
        (leads n (i + 1) b r1 0 false (omega arith) (inr (refl, omega (arith, t))))
  leads (suc n) i b (suc r1) (suc r2) true h t = first_way n i b r1 (suc r2) true refl (
      leads n (i + 1) b r1 (suc r2) false (omega arith)
        (inl (omega arith, omega (arith, t), omega (arith, t))))
  leads (suc n) i b r1 zero false h (inl t) = absurd (omega (arith, t))
  leads (suc n) i b r1 (suc r2) false h (inl t) =
      second_way n i b r1 r2 (early b i (omega (arith, t)))
        (leads n (i + 1) b r1 r2 true (omega arith) (omega (arith, t), omega (arith, t)))
  leads (suc n) i b zero r2 false h (inr t) = absurd (omega (arith, t))
  leads (suc n) i b (suc r1) r2 false h (inr t) =
      first_way n i b r1 r2 false (late b i (omega (arith, t)))
        (leads n (i + 1) b r1 r2 false (omega arith) (inr (t.0, omega (arith, t))))

  loops_lead :
      (n1 n2 : ℕ) (p : Vector)
      → n2 ≤ n1
      → follow (make_movement_loops n1 n2 d1 d2) p ≡ some (at_end p v1 n1 v2 n2)
  unfolding make_movement_loops TakesTurns Leads
  loops_lead n1 n2 p h = leads (n2 + n1) 0 n2 n1 n2 true (omega arith) (omega arith, h) p

-- The target, from where the projectile starts.
abbrev pub target_from : Vector → ℤ → ℤ → Vector
target_from p x y = add p (record { x = x; y = y; z = pos 0 })

-- The movement of a quadrant.
Reaches : List Dir → ℤ → ℤ → Type 0
Reaches path x y = (p : Vector) → follow path p ≡ some (target_from p x y)

first_only : (p a x : ℤ) (n : ℕ) → a ≡ x → p +ℤ a +ℤ pos 0 *ℤ pos n ≡ p +ℤ x
first_only p a x n e = let e = parts_of e in omega (int_laws, e)

second_only : (p a x : ℤ) (n : ℕ) → a ≡ x → p +ℤ pos 0 *ℤ pos n +ℤ a ≡ p +ℤ x
second_only p a x n e = let e = parts_of e in omega (int_laws, e)

neither : (p : ℤ) (m n : ℕ) → p +ℤ pos 0 *ℤ pos m +ℤ pos 0 *ℤ pos n ≡ p +ℤ pos 0
neither p m n = omega int_laws

module _ (across along : Dir) (sx sy : ℤ) (m n : ℕ) (x y : ℤ)
    (e1 : dir_to_vdir across ≡ some (record { x = sx; y = pos 0; z = pos 0 }))
    (e2 : dir_to_vdir along ≡ some (record { x = pos 0; y = sy; z = pos 0 })) (ex : sx *ℤ pos m ≡ x)
    (ey : sy *ℤ pos n ≡ y) where
  across_first : n ≤ m → Reaches (make_movement_loops m n across along) x y
  unfolding Reaches add scale
  across_first h p =
      loops_lead across along _ _ e1 e2 m n p h
      ∙ ap some
          (vector_ext _ _ (first_only p.x _ x n ex) (second_only p.y _ y m ey) (neither p.z m n))

  along_first : m ≤ n → Reaches (make_movement_loops n m along across) x y
  unfolding Reaches add scale
  along_first h p =
      loops_lead along across _ _ e2 e1 n m p h
      ∙ ap some
          (vector_ext _ _ (second_only p.x _ x n ex) (first_only p.y _ y m ey) (neither p.z n m))

  quadrant-Reaches :
      (y_larger x_larger : Bool)
      → y_larger ≡ ltb m n
      → x_larger ≡ ltb n m
      → ¬ (m ≡ n)
      → Reaches (quadrant y_larger x_larger m n across along) x y
  unfolding quadrant Reaches
  quadrant-Reaches true x_larger t u h p = along_first (grind (arith, t)) p
  quadrant-Reaches false true t u h p = across_first (grind (arith, u)) p
  quadrant-Reaches false false t u h p = absurd (h (grind (arith, t, u)))

positive_part : (x : ℤ) → leb_ℤ (pos 0) x ≡ true → pos 1 *ℤ pos (abs x) ≡ x
positive_part x h = grind int_laws

negative_part : (x : ℤ) → leb_ℤ x (pos 0) ≡ true → negsuc 0 *ℤ pos (abs x) ≡ x
negative_part x h = grind int_laws

module _ (x y : ℤ) where
  south_east :
      leb_ℤ (pos 0) x ≡ true
      → leb_ℤ (pos 0) y ≡ true
      → ¬ (abs x ≡ abs y)
      → Reaches (quadrant (ltb_ℤ x y) (ltb_ℤ y x) (abs x) (abs y) Dir.east Dir.south) x y
  unfolding dir_to_vdir index dir_vectors
  south_east hx hy =
      quadrant-Reaches Dir.east Dir.south _ _ (abs x) (abs y) x y refl refl (positive_part x hx)
        (positive_part y hy) _ _ (grind int_laws) (grind int_laws)

  north_west :
      leb_ℤ x (pos 0) ≡ true
      → leb_ℤ y (pos 0) ≡ true
      → ¬ (abs x ≡ abs y)
      → Reaches
          (quadrant (ltb (abs x) (abs y)) (ltb (abs y) (abs x)) (abs x) (abs y) Dir.west Dir.north)
          x
          y
  unfolding dir_to_vdir index dir_vectors
  north_west hx hy =
      quadrant-Reaches Dir.west Dir.north _ _ (abs x) (abs y) x y refl refl (negative_part x hx)
        (negative_part y hy) _ _ (grind int_laws) (grind int_laws)

  south_west :
      leb_ℤ x (pos 0) ≡ true
      → leb_ℤ (pos 0) y ≡ true
      → ¬ (abs x ≡ abs y)
      → Reaches
          (quadrant
            (ltb_ℤ (pos (abs x)) y)
            (ltb (abs y) (abs x))
            (abs x)
            (abs y)
            Dir.west
            Dir.south)
          x
          y
  unfolding dir_to_vdir index dir_vectors
  south_west hx hy =
      quadrant-Reaches Dir.west Dir.south _ _ (abs x) (abs y) x y refl refl (negative_part x hx)
        (positive_part y hy) _ _ (grind int_laws) (grind int_laws)

  north_east :
      leb_ℤ (pos 0) x ≡ true
      → leb_ℤ y (pos 0) ≡ true
      → ¬ (abs x ≡ abs y)
      → Reaches
          (quadrant
            (ltb_ℤ x (pos (abs y)))
            (ltb_ℤ (pos (abs y)) x)
            (abs x)
            (abs y)
            Dir.east
            Dir.north)
          x
          y
  unfolding dir_to_vdir index dir_vectors
  north_east hx hy =
      quadrant-Reaches Dir.east Dir.north _ _ (abs x) (abs y) x y refl refl (positive_part x hx)
        (negative_part y hy) _ _ (grind int_laws) (grind int_laws)

  -- On a diagonal either number counts either way.
  other_count : (s : ℤ) → abs x ≡ abs y → s *ℤ pos (abs x) ≡ x → s *ℤ pos (abs y) ≡ x
  other_count s e h = rw (sym e) h

  other_count_back : (s : ℤ) → abs x ≡ abs y → s *ℤ pos (abs y) ≡ y → s *ℤ pos (abs x) ≡ y
  other_count_back s e h = rw e h

  module _ (e : abs x ≡ abs y) (across along : Dir) (sx sy : ℤ)
      (e1 : dir_to_vdir across ≡ some (record { x = sx; y = pos 0; z = pos 0 }))
      (e2 : dir_to_vdir along ≡ some (record { x = pos 0; y = sy; z = pos 0 }))
      (hx : sx *ℤ pos (abs x) ≡ x) (hy : sy *ℤ pos (abs y) ≡ y) where
    diagonal_across : Reaches (make_movement_loops (abs y) (abs x) across along) x y
    diagonal_across =
        across_first across along sx sy (abs y) (abs x) x y e1 e2 (other_count sx e hx)
          (other_count_back sy e hy) (omega (arith, e))

    diagonal_along : Reaches (make_movement_loops (abs y) (abs x) along across) x y
    diagonal_along =
        along_first across along sx sy (abs x) (abs y) x y e1 e2 hx hy (omega (arith, e))

not_positive : (x : ℤ) → ltb_ℤ (pos 0) x ≡ false → negsuc 0 *ℤ pos (abs x) ≡ x
not_positive x h = grind int_laws

positive : (x : ℤ) → ltb_ℤ (pos 0) x ≡ true → pos 1 *ℤ pos (abs x) ≡ x
positive x h = grind int_laws

not_negative : (x : ℤ) → ltb_ℤ x (pos 0) ≡ false → pos 1 *ℤ pos (abs x) ≡ x
not_negative x h = grind int_laws

negative : (x : ℤ) → ltb_ℤ x (pos 0) ≡ true → negsuc 0 *ℤ pos (abs x) ≡ x
negative x h = grind int_laws

diagonal-Reaches : (x y : ℤ) (facing : Dir) → abs x ≡ abs y → Reaches (diagonal x y facing) x y
unfolding diagonal Reaches dir_to_vdir index dir_vectors
diagonal-Reaches x y facing e p = elim (Bool-cases (ltb_ℤ y (pos 0))) [
  | inl ty ↦ elim (Bool-cases (is_sideways facing)) [
    | inl ts ↦ elim (Bool-cases (ltb_ℤ (pos 0) x)) [
      | inl tx ↦ rw ty (
          rw ts (
            rw tx (
              diagonal_across x y e Dir.east Dir.north _ _ refl refl (positive x tx) (negative y ty)
                p)))
      | inr tx ↦ rw ty (
          rw ts (
            rw tx (
              diagonal_across x y e Dir.west Dir.north _ _ refl refl (not_positive x tx)
                (negative y ty) p)))
    ]
    | inr ts ↦ elim (Bool-cases (ltb_ℤ (pos 0) x)) [
      | inl tx ↦ rw ty (
          rw ts (
            rw tx (
              diagonal_along x y e Dir.east Dir.north _ _ refl refl (positive x tx) (negative y ty)
                p)))
      | inr tx ↦ rw ty (
          rw ts (
            rw tx (
              diagonal_along x y e Dir.west Dir.north _ _ refl refl (not_positive x tx)
                (negative y ty) p)))
    ]
  ]
  | inr ty ↦ elim (Bool-cases (is_sideways facing)) [
    | inl ts ↦ elim (Bool-cases (ltb_ℤ (pos 0) x)) [
      | inl tx ↦ rw ty (
          rw ts (
            rw tx (
              diagonal_across x y e Dir.east Dir.south _ _ refl refl (positive x tx)
                (not_negative y ty) p)))
      | inr tx ↦ rw ty (
          rw ts (
            rw tx (
              diagonal_across x y e Dir.west Dir.south _ _ refl refl (not_positive x tx)
                (not_negative y ty) p)))
    ]
    | inr ts ↦ elim (Bool-cases (ltb_ℤ (pos 0) x)) [
      | inl tx ↦ rw ty (
          rw ts (
            rw tx (
              diagonal_along x y e Dir.east Dir.south _ _ refl refl (positive x tx)
                (not_negative y ty) p)))
      | inr tx ↦ rw ty (
          rw ts (
            rw tx (
              diagonal_along x y e Dir.west Dir.south _ _ refl refl (not_positive x tx)
                (not_negative y ty) p)))
    ]
  ]
]

-- Some path is made, and it leads to the target.
FindsPath : Option (List Dir) → ℤ → ℤ → Type 0
FindsPath none x y = ⊥
FindsPath (some path) x y = Reaches path x y

found :
    (o : Option (List Dir)) (x y : ℤ)
    → FindsPath o x y
    → (path : List Dir) × (o ≡ some path)
      × ((p : Vector) → follow path p ≡ some (target_from p x y))
unfolding FindsPath Reaches
found none x y h = absurd h
found (some path) x y h = (path, refl, h)

-- The last two tests of make_movement_pattern, where the numbers have different signs.
abbrev mixed_signs : ℤ → ℤ → Option (List Dir)
mixed_signs x y =
    if ltb_ℤ x (pos 0) && ltb_ℤ (pos 0) y
    then some
        (quadrant (ltb_ℤ (pos (abs x)) y) (ltb (abs y) (abs x)) (abs x) (abs y) Dir.west Dir.south)
    else if ltb_ℤ (pos 0) x && ltb_ℤ y (pos 0)
    then some (
        quadrant (ltb_ℤ x (pos (abs y))) (ltb_ℤ (pos (abs y)) x) (abs x) (abs y) Dir.east Dir.north)
    else none

not_equal : (a b : ℕ) → (a == b) ≡ false → ¬ (a ≡ b)
not_equal a b h = grind (arith, h)

mixed_signs_lead :
    (x y : ℤ)
    → ¬ (abs x ≡ abs y)
    → (leb_ℤ (pos 0) x && leb_ℤ (pos 0) y) ≡ false
    → (leb_ℤ x (pos 0) && leb_ℤ y (pos 0)) ≡ false
    → FindsPath (mixed_signs x y) x y
unfolding FindsPath
mixed_signs_lead x y ne h1 h2 = elim (Bool-cases (ltb_ℤ x (pos 0) && ltb_ℤ (pos 0) y)) [
  | inl t ↦ rw t (south_west x y (grind int_laws) (grind int_laws) ne)
  | inr t ↦ elim (Bool-cases (ltb_ℤ (pos 0) x && ltb_ℤ y (pos 0))) [
    | inl u ↦ rw t (rw u (north_east x y (grind int_laws) (grind int_laws) ne))
    | inr u ↦ absurd (grind int_laws)
  ]
]

pattern_leads :
    (target : Vector) (facing : Dir)
    → FindsPath (make_movement_pattern target facing) target.x target.y
unfolding FindsPath make_movement_pattern
pattern_leads target facing = elim (Bool-cases (abs target.x == abs target.y)) [
  | inl e ↦ rw e (diagonal-Reaches target.x target.y facing (grind (arith, e)))
  | inr e ↦ elim (Bool-cases (leb_ℤ (pos 0) target.x && leb_ℤ (pos 0) target.y)) [
    | inl t ↦
        rw e
          (rw t (south_east target.x target.y (grind int_laws) (grind int_laws) (not_equal _ _ e)))
    | inr t ↦ elim (Bool-cases (leb_ℤ target.x (pos 0) && leb_ℤ target.y (pos 0))) [
      | inl u ↦ rw e (
          rw t (
            rw u
              (north_west target.x target.y (grind int_laws) (grind int_laws) (not_equal _ _ e))))
      | inr u ↦ rw e (rw t (rw u (mixed_signs_lead target.x target.y (not_equal _ _ e) t u)))
    ]
  ]
]

pub pattern-cases :
    (target : Vector) (facing : Dir)
    → (path : List Dir) × (make_movement_pattern target facing ≡ some path)
      × ((p : Vector) → follow path p ≡ some (target_from p target.x target.y))
pattern-cases target facing =
    found (make_movement_pattern target facing) target.x target.y (pattern_leads target facing)
