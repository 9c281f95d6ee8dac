-- ===== src/Sight/Trace.antt =====
-- RayTrace looks at the points of a line.
use griefly.Prelude.{
  ℕ, suc, ◌≤◌, ◌<◌, ◌≡◌, refl, sym, ap, ◌∙◌, inl, inr, arith, Bool, Bool-cases, true, false, ltb,
  ltb→lt, if◌then◌else◌, some,
}
use griefly.Prelude.Int.{ℤ, pos, ◌-ℤ◌, ltb_ℤ, abs, int_laws}
use griefly.Geometry.{Vector}
use griefly.Sight.{MapInterface, sign, bresen, is_clear, bresen_x, bresen_y, ray_trace}
use griefly.Sight.Ray.{all_from, unit, along, across, passes_from, there}

sign-unit :
    (s target : ℤ)
    → 0 < abs (s -ℤ target)
    → (b : Bool) × (sign (target -ℤ s) ≡ unit b) × (along s (unit b) (abs (s -ℤ target)) ≡ target)
unfolding sign
sign-unit s target h = elim (Bool-cases (ltb_ℤ (pos 0) (target -ℤ s))) [
  | inl t ↦ (true, rw t refl, grind (int_laws, t))
  | inr t ↦ (false, rw t (rw (below t) refl), grind (int_laws, t, h))
]
  where
    below : ltb_ℤ (pos 0) (target -ℤ s) ≡ false → ltb_ℤ (target -ℤ s) (pos 0) ≡ true
    below t = grind (int_laws, t, h)

start_along : (s a : ℤ) → along s a 0 ≡ s
start_along s a = omega int_laws

module _ (clear : ℤ → ℤ → Bool) (t step : ℤ) (e : ℕ) where
  bresen_goes :
      (s target inc : ℤ) (d : ℕ) (b : Bool)
      → e ≤ d
      → 0 < d
      → inc ≡ unit b
      → along s (unit b) d ≡ target
      → bresen clear target (pos d) (pos e) inc step (suc d) s t (pos 0)
        ≡ some (all_from d 0 (λ k. clear (along s inc k) (across t step e d k)))
  bresen_goes s target inc d b flat positive ei et = rw ei (
      rw (sym et) (
        ap
          (λ x. bresen clear (along s (unit b) d) (pos d) (pos e) (unit b) step (suc d) x t (pos 0))
          (sym (start_along s (unit b)))
        ∙ ap
            (λ y.
              bresen clear (along s (unit b) d) (pos d) (pos e) (unit b) step (suc d)
                (along s (unit b) 0) y (pos 0))
            (sym (start_along t step))
        ∙ passes_from clear s t step b d e d 0 0 0 (omega arith) (omega arith) positive flat))

  stays :
      (s target inc : ℤ) (d : ℕ)
      → d ≡ 0
      → s ≡ target
      → bresen clear target (pos d) (pos e) inc step (suc d) s t (pos 0)
        ≡ some (all_from d 0 (λ k. clear (along s inc k) (across t step e d k)))
  unfolding bresen all_from
  stays s target inc d ed es = rw ed (rw es (rw (there target) refl))

  bresen_line :
      (s target : ℤ)
      → e ≤ abs (s -ℤ target)
      → bresen clear target
          (pos (abs (s -ℤ target)))
          (pos e)
          (sign (target -ℤ s))
          step
          (suc (abs (s -ℤ target)))
          s
          t
          (pos 0)
        ≡ some (
            all_from
              (abs (s -ℤ target))
              0
              (λ k. clear (along s (sign (target -ℤ s)) k) (across t step e (abs (s -ℤ target)) k)))
  bresen_line s target flat = elim (Bool-cases (ltb 0 (abs (s -ℤ target)))) [
    | inl p ↦
        let positive = ltb→lt 0 (abs (s -ℤ target)) p in
        let (b, ei, et) = sign-unit s target positive in
        bresen_goes s target (sign (target -ℤ s)) (abs (s -ℤ target)) b flat positive ei et
    | inr z ↦
        stays s target (sign (target -ℤ s)) (abs (s -ℤ target)) (grind (int_laws, z))
          (grind (int_laws, z))
  ]

-- The points of the line from a source to a target, in the order of their distance, the target left out: exact along the
-- longer axis, rounded towards the source across it. All of them are clear.
unfoldable pub line_is_clear : MapInterface → Vector → Vector → Bool
line_is_clear map source target =
    let dx = abs (source.x -ℤ target.x) in
    let dy = abs (source.y -ℤ target.y) in
    let to_x = sign (target.x -ℤ source.x) in
    let to_y = sign (target.y -ℤ source.y) in
    if ltb dy dx
    then all_from dx 0 (λ k.
      is_clear map source.z to_x to_y (along source.x to_x k) (across source.y to_y dy dx k))
    else all_from dy 0 (λ k.
      is_clear map source.z to_x to_y (across source.x to_x dx dy k) (along source.y to_y k))

-- RayTrace ends, for all sources and targets, and finds the ray free exactly when every point of the line is
-- clear: as far along the longer axis as the point's number, and across it that far times the
-- slope, rounded down.
pub ray_trace_line :
    (map : MapInterface) (source target : Vector)
    → ray_trace map source target ≡ some (line_is_clear map source target)
unfolding ray_trace bresen_x bresen_y line_is_clear
ray_trace_line map source target =
    elim (Bool-cases (ltb (abs (source.y -ℤ target.y)) (abs (source.x -ℤ target.x)))) [
      | inl t ↦ rw t (
          bresen_line _ source.y _ (abs (source.y -ℤ target.y)) source.x target.x
            (grind (arith, t)))
      | inr t ↦ rw t (
          bresen_line _ source.x _ (abs (source.x -ℤ target.x)) source.y target.y
            (grind (arith, t)))
    ]
