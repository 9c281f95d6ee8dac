-- ===== src/Types/Bases.antt =====
-- IsBase decides whether a class derives from another.
use griefly.Prelude.{
  ℕ, zero, suc, ◌-◌, ◌==◌, ◌≤◌, ◌<◌, ◌≡◌, ◌≢◌, ◌⊎◌, ◌↔◌, inl, inr, refl, sym, ◌∙◌, arith, subst,
  ==→≡, Bool, Bool-cases, true, false, some, List, length, get_elem?,
}
use griefly.Types.{ClassData, get_index_of_class, is_base}

module _ (object_name : ℕ) (classes : List ClassData) where
  -- The class that a class names as its base, when that is not Object.
  abbrev pub Parent : ℕ → ℕ → Type 0
  Parent class_num p =
      (c : ClassData) × (class_num ≢ 0)
      × (get_elem? classes (class_num - 1) ≡ some c)
      × (c.base_class ≢ object_name)
      × (get_index_of_class c.base_class classes ≡ some p)

  -- A class that names Object as its base.
  abbrev pub OverObject : ℕ → Type 0
  OverObject class_num =
      (c : ClassData) × (get_elem? classes (class_num - 1) ≡ some c) × (c.base_class ≡ object_name)

  -- A class derives from Object, from itself, and from what its base derives from.
  pub data Derives : ℕ → ℕ → Type 0 where
    root : {n : ℕ} → Derives n 0
    itself : {n : ℕ} → Derives n n
    inherited : {n p b : ℕ} → Parent n p → Derives p b → Derives n b

  -- No class derives from itself over others: a height for each class, at most the number of classes,
  -- which is less for the class's base, wherever in the list that stands. Every class names Object or one of the classes.
  pub record IsAcyclic (height : ℕ → ℕ) : Type 0 where
    pub bounded : (n : ℕ) → height n ≤ length classes
    pub has_base :
        (n : ℕ)
        → n ≢ 0
        → n ≤ length classes
        → OverObject n ⊎ ((p : ℕ) × Parent n p × (p ≤ length classes) × (height p < height n))

  invert : {n b : ℕ} → Derives n b → (b ≡ 0) ⊎ (n ≡ b) ⊎ ((p : ℕ) × Parent n p × Derives p b)
  invert root = inl refl
  invert itself = inr (inl refl)
  invert (inherited {p = p} parent d) = inr (inr (p, parent, d))

  Decides : ℕ → ℕ → ℕ → Type 0
  Decides fuel n b =
      (answer : Bool) × (is_base object_name classes fuel n b ≡ some answer)
      × ((answer ≡ true) ↔ Derives n b)

  no_true : {A : Type 0} → false ≡ true → A
  no_true e = absurd (grind (arith, e))

  zero_test : (n : ℕ) → (n == 0) ≡ false → n ≢ 0
  zero_test n h e = grind (arith, h, e)

  same-Parent : (n p p' : ℕ) → Parent n p → Parent n p' → p ≡ p'
  same-Parent n p p' (c, n0, e, ne, found) (c', n0', e', ne', found') =
      grind (arith, e, e', found, found')

  no-Parent : (n p : ℕ) → OverObject n → ¬ Parent n p
  no-Parent n p (c, e, object) (c', n0', e', ne', found') =
      absurd (ne' (grind (arith, e, e', object)))

  base_root :
      (fuel n b : ℕ) → (b == 0) ≡ true → is_base object_name classes (suc fuel) n b ≡ some true
  unfolding is_base
  base_root fuel n b b0 = grind (arith, b0)

  base_itself :
      (fuel n b : ℕ)
      → (b == 0) ≡ false
      → (n == b) ≡ true
      → is_base object_name classes (suc fuel) n b ≡ some true
  unfolding is_base
  base_itself fuel n b b0 nb = grind (arith, b0, nb)

  base_object :
      (fuel n b : ℕ)
      → (b == 0) ≡ false
      → (n == b) ≡ false
      → (n == 0) ≡ true
      → is_base object_name classes (suc fuel) n b ≡ some false
  unfolding is_base
  base_object fuel n b b0 nb n0 = grind (arith, b0, nb, n0)

  base_over :
      (fuel n b : ℕ)
      → (b == 0) ≡ false
      → (n == b) ≡ false
      → (n == 0) ≡ false
      → OverObject n
      → is_base object_name classes (suc fuel) n b ≡ some false
  unfolding is_base
  base_over fuel n b b0 nb n0 (c, e, object) =
      let t : (c.base_class == object_name) ≡ true = grind (arith, object) in
      grind (arith, b0, nb, n0, e, t)

  base_up :
      (fuel n b p : ℕ)
      → (b == 0) ≡ false
      → (n == b) ≡ false
      → (n == 0) ≡ false
      → Parent n p
      → is_base object_name classes (suc fuel) n b ≡ is_base object_name classes fuel p b
  unfolding is_base
  base_up fuel n b p b0 nb n0 (c, positive, e, ne, found) =
      let t : (c.base_class == object_name) ≡ false = grind (arith, ne) in
      grind (arith, b0, nb, n0, e, t, found)

  step_up :
      (n b p : ℕ) → (b == 0) ≡ false → (n == b) ≡ false → Parent n p → Derives n b → Derives p b
  step_up n b p b0 nb parent d = elim (invert d) [
    | inl e ↦ absurd (zero_test b b0 e)
    | inr (inl e) ↦ absurd (grind (arith, e, nb))
    | inr (inr (p', parent', d')) ↦ subst (λ m. Derives m b) (same-Parent n p' p parent' parent) d'
  ]

  not_over :
      (n b : ℕ) → (b == 0) ≡ false → (n == b) ≡ false → ((p : ℕ) → ¬ Parent n p) → ¬ Derives n b
  not_over n b b0 nb orphan d = elim (invert d) [
    | inl e ↦ zero_test b b0 e
    | inr (inl e) ↦ absurd (grind (arith, e, nb))
    | inr (inr (p', parent', d')) ↦ orphan p' parent'
  ]

  module _ (height : ℕ → ℕ) (acyclic : IsAcyclic height) where
    open acyclic use {bounded, has_base}

    decides : (fuel n b : ℕ) → height n < fuel → n ≤ length classes → Decides fuel n b
    unfolding Decides
    decides zero n b h l = absurd (omega arith)
    decides (suc fuel) n b h l = elim (Bool-cases (b == 0)) [
      | inl b0 ↦ (
        true,
        base_root fuel n b b0,
        (λ e. subst (Derives n) (sym (==→≡ b 0 b0)) root, λ d. refl),
      )
      | inr b0 ↦ elim (Bool-cases (n == b)) [
        | inl nb ↦ (
          true,
          base_itself fuel n b b0 nb,
          (λ e. subst (Derives n) (==→≡ n b nb) itself, λ d. refl),
        )
        | inr nb ↦ elim (Bool-cases (n == 0)) [
          | inl n0 ↦ (
            false,
            base_object fuel n b b0 nb n0,
            (
              λ e. no_true e,
              λ d. absurd (not_over n b b0 nb (λ p parent. parent.1 (==→≡ n 0 n0)) d),
            ),
          )
          | inr n0 ↦ elim (has_base n (zero_test n n0) l) [
            | inl over ↦ (
              false,
              base_over fuel n b b0 nb n0 over,
              (λ e. no_true e, λ d. absurd (not_over n b b0 nb (λ p. no-Parent n p over) d)),
            )
            | inr (p, parent, inside, lt) ↦
                let (answer, e, there) = decides fuel p b (omega arith) inside in
                (
                  answer,
                  base_up fuel n b p b0 nb n0 parent ∙ e,
                  (λ t. inherited parent (there.0 t), λ d. there.1 (step_up n b p b0 nb parent d)),
                )
          ]
        ]
      ]
    ]

    -- When every class names Object or another of the classes as its base, in any order in the list, and
    -- no class is over others its own base, IsBase comes to an end for every class and every number, after at
    -- most one call for each class and one for Object, and answers yes exactly when the class derives from
    -- the other: from Object, itself, or what its base derives from.
    pub is_base_decides :
        (n b : ℕ)
        → n ≤ length classes
        → (answer : Bool) × (is_base object_name classes (suc (length classes)) n b ≡ some answer)
          × ((answer ≡ true) ↔ Derives n b)
    unfolding Decides
    is_base_decides n b h = decides (suc (length classes)) n b (omega (arith, bounded n)) h
