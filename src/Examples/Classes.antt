-- ===== src/Examples/Classes.antt =====
-- Classes and their bases: sources/core/FastIsType.cpp.
use griefly.Prelude.{
  ℕ, zero, suc, ◌≡◌, ◌≢◌, ◌≤◌, ◌<◌, ◌⊎◌, ◌↔◌, inl, inr, refl, arith, Bool, true, false, some, List,
  [], ◌∷◌,
}
use griefly.Types.{ClassData, index_from, is_base, row_from, rows_from, init_table}
use griefly.Types.Bases.{Derives, IsAcyclic, OverObject, Parent, is_base_decides}

-- Object is 100. GlassDoor, 1, derives from Movable, 2, which stands behind it and derives from Mapped, 3.
abbrev classes : List ClassData
classes =
    record { name = 1; base_class = 2 }
    ∷ record { name = 2; base_class = 3 }
    ∷ record { name = 3; base_class = 100 }
    ∷ []

-- The numbers of the bases above a class.
abbrev height : ℕ → ℕ
height (suc zero) = 3
height (suc (suc zero)) = 2
height (suc (suc (suc zero))) = 1
height _ = 0

classes-IsAcyclic : IsAcyclic 100 classes height
unfolding index_from
classes-IsAcyclic = record { bounded = bounded; has_base = has_base }
  where
    bounded : (n : ℕ) → height n ≤ 3
    bounded zero = omega arith
    bounded (suc zero) = omega arith
    bounded (suc (suc zero)) = omega arith
    bounded (suc (suc (suc zero))) = omega arith
    bounded (suc (suc (suc (suc n)))) = omega arith

    has_base :
        (n : ℕ)
        → n ≢ 0
        → n ≤ 3
        → OverObject 100 classes n
          ⊎ ((p : ℕ) × Parent 100 classes n p × (p ≤ 3) × (height p < height n))
    has_base zero n0 h = absurd (n0 refl)
    has_base (suc zero) n0 h = inr (
      2,
      (record { name = 1; base_class = 2 }, n0, refl, (λ e. grind (arith, e)), refl),
      omega arith,
      omega arith,
    )
    has_base (suc (suc zero)) n0 h = inr (
      3,
      (record { name = 2; base_class = 3 }, n0, refl, (λ e. grind (arith, e)), refl),
      omega arith,
      omega arith,
    )
    has_base (suc (suc (suc zero))) n0 h = inl (record { name = 3; base_class = 100 }, refl, refl)
    has_base (suc (suc (suc (suc n)))) n0 h = absurd (omega arith)

is_base_decides_example :
    (answer : Bool) × (is_base 100 classes 4 1 3 ≡ some answer)
    × ((answer ≡ true) ↔ Derives 100 classes 1 3)
is_base_decides_example = is_base_decides 100 classes height classes-IsAcyclic 1 3 (omega arith)

table :
    init_table 100 classes
    ≡ (some true ∷ some false ∷ some false ∷ some false ∷ [])
      ∷ (some true ∷ some true ∷ some true ∷ some true ∷ [])
      ∷ (some true ∷ some false ∷ some true ∷ some true ∷ [])
      ∷ (some true ∷ some false ∷ some false ∷ some true ∷ [])
      ∷ []
unfolding init_table rows_from row_from is_base index_from
table = refl
