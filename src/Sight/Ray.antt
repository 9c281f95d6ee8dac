-- ===== src/Sight/Ray.antt =====
-- The loop of a ray ends, and its points are those of the line, rounded down.
use griefly.Prelude.{
  ℕ, zero, suc, ◌+◌, ◌-◌, ◌*◌, ◌/◌, ◌≤◌, ◌<◌, ◌≡◌, refl, sym, ap, ◌∙◌, inl, inr, arith, Bool,
  Bool-cases, true, false, ◌&&◌, if◌then◌else◌, Option, some,
}
use griefly.Prelude.Int.{ℤ, pos, negsuc, ◌+ℤ◌, ◌-ℤ◌, ◌*ℤ◌, ◌==ℤ◌, leb_ℤ, int_laws, parts_of}
use native.Mathlib.Nat.{div-eq_of_lt-le}
use griefly.Sight.{bresen}

-- A test holds for so many numbers, from one on.
unfoldable pub all_from : ℕ → ℕ → (ℕ → Bool) → Bool
all_from zero k test = true
all_from (suc n) k test = test k && all_from n (suc k) test

-- A step along a ray that goes anywhere.
abbrev pub unit : Bool → ℤ
unit true = pos 1
unit false = negsuc 0

-- The point of a ray, k steps along the longer way: exactly along, and rounded down across.
abbrev pub along : ℤ → ℤ → ℕ → ℤ
along s inc k = s +ℤ inc *ℤ pos k

abbrev pub across : ℤ → ℤ → ℕ → ℕ → ℕ → ℤ
across t step e d k = t +ℤ step *ℤ pos (k * e / d)

next_ℤ : (s a x : ℤ) (k : ℕ) → x ≡ s +ℤ a *ℤ pos k → x +ℤ a ≡ s +ℤ a *ℤ pos (suc k)
next_ℤ s a x k h = let e = parts_of h in omega (int_laws, e)

not_there :
    (s : ℤ) (b : Bool) (k d : ℕ) → k < d → (along s (unit b) k ==ℤ along s (unit b) d) ≡ false
not_there s true k d h = grind int_laws
not_there s false k d h = grind int_laws

pub there : (x : ℤ) → (x ==ℤ x) ≡ true
there x = grind int_laws

quotient : (a q r d : ℕ) → a ≡ q * d + r → r < d → a / d ≡ q
quotient a q r d h small = div-eq_of_lt-le d (omega (arith, h)) (omega (arith, h))

module _ (clear : ℤ → ℤ → Bool) (target delta deltaerr inc step : ℤ) (fuel : ℕ) (x y error : ℤ)
    (short : (x ==ℤ target) ≡ false) where
  bresen-over :
      (z left : ℤ)
      → leb_ℤ delta (error +ℤ deltaerr) ≡ true
      → y +ℤ step ≡ z
      → error +ℤ deltaerr -ℤ delta ≡ left
      → bresen clear target delta deltaerr inc step (suc fuel) x y error ≡ (
          if clear x y
          then bresen clear target delta deltaerr inc step fuel (x +ℤ inc) z left
          else some false)
  unfolding bresen
  bresen-over z left t ez el = rw short (rw t (rw ez (rw el refl)))

  bresen-under :
      (left : ℤ)
      → leb_ℤ delta (error +ℤ deltaerr) ≡ false
      → error +ℤ deltaerr ≡ left
      → bresen clear target delta deltaerr inc step (suc fuel) x y error ≡ (
          if clear x y
          then bresen clear target delta deltaerr inc step fuel (x +ℤ inc) y left
          else some false)
  unfolding bresen
  bresen-under left t el = rw short (rw t (rw el refl))

-- The rest of a ray counts where its next point is clear.
and_rest : (c rest : Bool) → (if c then some rest else some false) ≡ some (c && rest)
and_rest true rest = refl
and_rest false rest = refl

module _ (clear : ℤ → ℤ → Bool) (s t step : ℤ) (b : Bool) (d e : ℕ) where
  abbrev ray : ℕ → ℤ → ℤ → ℕ → Option Bool
  ray fuel x y r = bresen clear (along s (unit b) d) (pos d) (pos e) (unit b) step fuel x y (pos r)

  abbrev test : ℕ → Bool
  test j = clear (along s (unit b) j) (across t step e d j)

  arrived : (k q r : ℕ) → k ≡ d → ray 1 (along s (unit b) k) (along t step q) r ≡ some true
  unfolding bresen
  arrived k q r h = rw h (rw (there (along s (unit b) d)) refl)

  carry_on :
      (n k q next r : ℕ)
      → k * e / d ≡ q
      → ray (suc n) (along s (unit b) (suc k)) (along t step next) r
        ≡ some (all_from n (suc k) test)
      → (if clear (along s (unit b) k) (along t step q)
          then ray (suc n) (along s (unit b) k +ℤ unit b) (along t step next) r
          else some false)
        ≡ some (all_from (suc n) k test)
  unfolding all_from
  carry_on n k q next r here onward =
      let c = clear (along s (unit b) k) (along t step q) in
      ap (λ x. if c then ray (suc n) x (along t step next) r else some false)
        (next_ℤ s (unit b) _ k refl)
      ∙ ap (λ o. if c then o else some false) onward
      ∙ and_rest c (all_from n (suc k) test)
      ∙ ap (λ q. some (clear (along s (unit b) k) (along t step q) && all_from n (suc k) test))
          (sym here)

  pub passes_from :
      (n k q r : ℕ)
      → k + n ≡ d
      → k * e ≡ q * d + r
      → r < d
      → e ≤ d
      → ray (suc n) (along s (unit b) k) (along t step q) r ≡ some (all_from n k test)
  unfolding all_from
  passes_from zero k q r h line small flat = arrived k q r (omega (arith, h))
  passes_from (suc n) k q r h line small flat =
      let here = quotient (k * e) q r d line small in
      let short = not_there s b k d (omega arith) in
      elim (Bool-cases (leb_ℤ (pos d) (pos r +ℤ pos e))) [
        | inl over ↦
            bresen-over clear (along s (unit b) d) (pos d) (pos e) (unit b) step (suc n)
              (along s (unit b) k) (along t step q) (pos r) short (along t step (suc q))
              (pos (r + e - d)) over (next_ℤ t step _ q refl) (grind (int_laws, over))
            ∙ carry_on n k q (suc q) (r + e - d) here (
                passes_from n (suc k) (suc q) (r + e - d) (omega (arith, h))
                  (grind (int_laws, over, line)) (omega (arith, flat, small)) flat)
        | inr under ↦
            bresen-under clear (along s (unit b) d) (pos d) (pos e) (unit b) step (suc n)
              (along s (unit b) k) (along t step q) (pos r) short (pos (r + e)) under
              (grind int_laws)
            ∙ carry_on n k q q (r + e) here (
                passes_from n (suc k) q (r + e) (omega (arith, h)) (omega (arith, line))
                  (grind (int_laws, under)) flat)
      ]
