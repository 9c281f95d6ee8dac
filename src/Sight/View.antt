-- ===== src/Sight/View.antt =====
-- What a viewer sees: Calculate stays in its array, and lists points of the map once.
use griefly.Prelude.{
  ℕ, zero, suc, ◌==◌, ◌≤◌, ◌<◌, ◌≡◌, ◌⊎◌, inl, inr, refl, sym, ap, ◌∙◌, arith, subst, Bool-cases,
  true, if◌then◌else◌, Option, Option-cases, none, some, List, [], ◌∷◌, ◌++◌, length, length-set,
  length-replicate, get_elem?, set, get_elem?-set_self, get_elem?-set_ne, get_elem?-append_cases,
}
use griefly.Prelude.Int.{ℤ, pos, negsuc, ◌+ℤ◌, ◌-ℤ◌, ◌*ℤ◌, ◌≤ℤ◌, int_laws, parts_of}
use griefly.Geometry.{Vector}
use griefly.Objects.{◌>>=◌}
use griefly.Sight.{
  MapInterface, Seen, nothing_seen, check_corner, vis_idx, for_each, check_borders, mark_tile,
  mark_tiles_of_corner_as_visible, look_at, source_of, corner_of, corner_point_to_point, calculate,
  size_sq, corner_to_pos, pos_to_corner,
}
use griefly.Sight.Trace.{ray_trace_line, line_is_clear}

abbrev pub At : List Vector → ℕ → Vector → Type 0
At points k p = get_elem? points k ≡ some p

-- A list of visible points that is right for a map and a center.
pub record IsView (map : MapInterface) (center : Vector) (s : Seen) : Type 0 where
  pub size : length s.visibility ≡ 784
  pub on_map : (k : ℕ) (p : Vector) → At s.retlist k p → check_borders map p ≡ true
  pub marked :
      (k : ℕ) (p : Vector)
      → At s.retlist k p
      → (n : ℕ) × (vis_idx center p ≡ pos n) × (get_elem? s.visibility n ≡ some 1)
  pub once : (k l : ℕ) (p : Vector) → At s.retlist k p → At s.retlist l p → k ≡ l

nothing_seen-IsView : (map : MapInterface) (center : Vector) → IsView map center nothing_seen
nothing_seen-IsView map center = record {
  size = length-replicate {A = ℕ} 784 0;
  on_map = λ k p e. absurd (grind (arith, e));
  marked = λ k p e. absurd (grind (arith, e));
  once = λ k l p e e'. absurd (grind (arith, e));
}

-- What a body of the loops does to every list that is right.
abbrev Keeps : MapInterface → Vector → (Seen → Option Seen) → Type 0
Keeps map center body =
    (s : Seen) → IsView map center s → (r : Seen) × (body s ≡ some r) × IsView map center r

module _ (map : MapInterface) (center p : Vector) (s : Seen) (view : IsView map center s) (n : ℕ)
    (here : check_borders map p ≡ true) (idx : vis_idx center p ≡ pos n) (inside : n < 784)
    (new : ¬ (get_elem? s.visibility n ≡ some 1)) where
  abbrev more : Seen
  more = record { retlist = s.retlist ++ (p ∷ []); visibility = set s.visibility n 1 }

  now-At :
      (k : ℕ) (q : Vector)
      → At more.retlist k q
      → (k ≡ length s.retlist) × (p ≡ q) ⊎ At s.retlist k q
  now-At k q e = get_elem?-append_cases s.retlist p q k e

  unseen : (k : ℕ) → ¬ At s.retlist k p
  unseen k e =
      let (m, idx', found) = view.marked k p e in
      let same : pos m ≡ pos n = sym idx' ∙ idx in absurd (new (grind (arith, found, same)))

  marked_self : get_elem? more.visibility n ≡ some 1
  marked_self = get_elem?-set_self s.visibility n 1 (omega (arith, view.size, inside))

  still_marked : (m : ℕ) → get_elem? s.visibility m ≡ some 1 → get_elem? more.visibility m ≡ some 1
  still_marked m e = elim (Bool-cases (n == m)) [
    | inl t ↦ ap (get_elem? more.visibility) (grind (arith, t)) ∙ marked_self
    | inr t ↦ get_elem?-set_ne s.visibility n m 1 (λ same. grind (arith, t, same)) ∙ e
  ]

  more-IsView : IsView map center more
  more-IsView = record {
    size = length-set s.visibility n 1 ∙ view.size;
    on_map = λ k q e. elim (now-At k q e) [
      | inl new_k ↦ ap (check_borders map) (sym new_k.1) ∙ here
      | inr old ↦ view.on_map k q old
    ];
    marked = λ k q e. elim (now-At k q e) [
      | inl new_k ↦ (n, ap (vis_idx center) (sym new_k.1) ∙ idx, marked_self)
      | inr old ↦ let (m, idx', found) = view.marked k q old in (m, idx', still_marked m found)
    ];
    once = λ k l q e e'. elim (now-At k q e) [
      | inl new_k ↦ elim (now-At l q e') [
        | inl new_l ↦ new_k.0 ∙ sym new_l.0
        | inr old_l ↦ absurd (unseen l (old_l ∙ ap some (sym new_k.1)))
      ]
      | inr old_k ↦ elim (now-At l q e') [
        | inl new_l ↦ absurd (unseen k (old_k ∙ ap some (sym new_l.1)))
        | inr old_l ↦ view.once k l q old_k old_l
      ]
    ];
  }

-- A point near enough to the center for its index.
abbrev Near : Vector → Vector → Type 0
Near center p = (p.x -ℤ center.x ≤ℤ pos 11) × (p.y -ℤ center.y ≤ℤ pos 11)

by_24 : (a : ℤ) → pos 2 *ℤ size_sq *ℤ a ≡ a *ℤ pos 24
unfolding ◌*ℤ◌
by_24 (pos n) = ground arith
by_24 (negsuc n) = ground arith

half_double : (a : ℤ) → corner_to_pos (pos_to_corner a) ≡ a
half_double a = grind int_laws

half_odd : (a : ℤ) → pos 0 ≤ℤ a → corner_to_pos (pos_to_corner a +ℤ pos 1) ≡ a
half_odd a h = grind int_laws

get_elem?-none : {A : Type 0} (xs : List A) (n : ℕ) → get_elem? xs n ≡ none → length xs ≤ n
get_elem?-none [] n e = omega arith
get_elem?-none (x ∷ xs) zero e = absurd (grind (arith, e))
get_elem?-none (x ∷ xs) (suc n) e = omega (arith, get_elem?-none xs n e)

Near-inside : (center p : Vector) (n : ℕ) → Near center p → vis_idx center p ≡ pos n → n < 784
Near-inside center p n near e =
    let e = parts_of e in
    let m = parts_of (by_24 (p.x -ℤ center.x +ℤ size_sq)) in omega (int_laws, e, m, near)

sign_cases : (a : ℤ) → ((n : ℕ) × (a ≡ negsuc n)) ⊎ ((n : ℕ) × (a ≡ pos n))
sign_cases (pos n) = inr (n, refl)
sign_cases (negsuc n) = inl (n, refl)

from_zero : (i : ℤ) → i +ℤ pos 0 ≡ i
from_zero i = omega int_laws

one_on : (i : ℤ) (k : ℕ) → i +ℤ pos (suc k) ≡ i +ℤ pos 1 +ℤ pos k
one_on i k = omega int_laws

mark_tile-Keeps :
    (map : MapInterface) (center p : Vector)
    → Near center p
    → Keeps map center (mark_tile map center p)
unfolding mark_tile
mark_tile-Keeps map center p near s view = elim (Bool-cases (check_borders map p)) [
  | inr off ↦ (s, rw off refl, view)
  | inl here ↦ elim (sign_cases (vis_idx center p)) [
    | inl (n, low) ↦ (s, rw here (rw low refl), view)
    | inr (n, idx) ↦
        let inside = Near-inside center p n near idx in
        elim (Option-cases (get_elem? s.visibility n)) [
          | inl outside ↦
              absurd (omega (arith, get_elem?-none s.visibility n outside, inside, view.size))
          | inr (v, found) ↦ elim (Bool-cases (v == 1)) [
            | inl t ↦ (s, rw here (rw idx (rw found (rw t refl))), view)
            | inr t ↦ (
              more map center p s view n here idx inside (λ e. grind (arith, e, found, t)),
              rw here (rw idx (rw found (rw t refl))),
              more-IsView map center p s view n here idx inside (λ e. grind (arith, e, found, t)),
            )
          ]
        ]
  ]
]

for_each-Keeps :
    (map : MapInterface) (center : Vector) (n : ℕ) (i : ℤ) (body : ℤ → Seen → Option Seen)
    → ((k : ℕ) → k < n → Keeps map center (body (i +ℤ pos k)))
    → Keeps map center (for_each n i body)
unfolding for_each
for_each-Keeps map center zero i body keeps s view = (s, refl, view)
for_each-Keeps map center (suc n) i body keeps s view =
    let (r, done, r_view) =
      subst (λ j. Keeps map center (body j)) (from_zero i) (keeps zero (omega arith)) s view in
    let (q, rest, q_view) =
      for_each-Keeps map center n (i +ℤ pos 1) body
        (λ k h. subst (λ j. Keeps map center (body j)) (one_on i k) (keeps (suc k) (omega arith))) r
        r_view in
    (q, ap (λ o. o >>= for_each n (i +ℤ pos 1) body) done ∙ rest, q_view)

mark_tiles-Keeps :
    (map : MapInterface) (at center : Vector)
    → Near center at
    → Keeps map center (mark_tiles_of_corner_as_visible map at center)
unfolding mark_tiles_of_corner_as_visible
mark_tiles-Keeps map at center near = for_each-Keeps map center 2 (negsuc 0) _ (λ k hk.
    for_each-Keeps map center 2 (negsuc 0) _ (λ l hl.
      mark_tile-Keeps map center _
        (grind (int_laws, near, hk, hl), grind (int_laws, near, hk, hl))))

-- Corners of the points around a viewer who stands on the map.
module _ (map : MapInterface) (at : Vector) (x_positive : pos 0 ≤ℤ at.x)
    (y_positive : pos 0 ≤ℤ at.y) where
  center : Vector
  center = corner_point_to_point (source_of map at)

  corner-Near :
      (i j : ℤ)
      → i ≤ℤ pos 11
      → j ≤ℤ pos 11
      → Near center (corner_point_to_point (corner_of map at i j))
  unfolding center
  corner-Near i j hi hj = (
    grind (int_laws, hi, half_double (at.x +ℤ i), half_odd at.x x_positive),
    grind (int_laws, hj, half_double (at.y +ℤ j), half_odd at.y y_positive),
  )

  look_at-Keeps :
      (i j : ℤ)
      → i ≤ℤ pos 11
      → j ≤ℤ pos 11
      → Keeps map center (look_at map (source_of map at) (corner_of map at i j))
  unfolding look_at center
  look_at-Keeps i j hi hj s view =
      let p = corner_of map at i j in
      elim (Bool-cases (check_corner map p)) [
        | inr off ↦ (s, rw off refl, view)
        | inl on ↦
            let traced =
              ap
                (λ o. o >>= λ free.
                  if free
                  then mark_tiles_of_corner_as_visible map (corner_point_to_point p) center s
                  else some s)
                (ray_trace_line map (source_of map at) p) in
            elim (Bool-cases (line_is_clear map (source_of map at) p)) [
              | inr dark ↦ (s, rw on (traced ∙ rw dark refl), view)
              | inl free ↦
                  let (r, done, r_view) =
                    mark_tiles-Keeps map (corner_point_to_point p) center (corner-Near i j hi hj) s
                      view in
                  (r, rw on (traced ∙ rw free done), r_view)
            ]
      ]

  -- For a viewer whose coordinates are not negative Calculate comes to an end, makes no access outside the visibility
  -- array, and lists only points of the map, none of them twice.
  pub calculate-IsView :
      (s : Seen) × (calculate map at ≡ some s)
      × IsView map (corner_point_to_point (source_of map at)) s
  unfolding calculate center
  calculate-IsView =
      for_each-Keeps map center 24 (negsuc 11) _
        (λ k hk. for_each-Keeps map center 24 (negsuc 11) _ (λ l hl.
          look_at-Keeps (negsuc 11 +ℤ pos k) (negsuc 11 +ℤ pos l) (omega (int_laws, hk))
            (omega (int_laws, hl))))
        nothing_seen (nothing_seen-IsView map center)
