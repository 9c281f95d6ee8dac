-- ===== src/HumanInterface/Masks/Mutual.antt =====
-- That masks and tanks lead to each other.
use griefly.Prelude.{
  ℕ, ◌≡◌, ◌≢◌, refl, ◌↔◌, inl, inr, true, false, List, [], ◌∷◌, arith, Bool-cases,
}
use griefly.HumanInterface.Masks.{
  Classes, Ties, untied, at_id, set_gas_tank, set_gas_mask, Event, leaves_slot, is_clicked, as_mask,
  as_tank, interface_changes, free_tank, tie, click_tank, untie, IsMutual, run,
}

module _ (classes : Classes) where
  as_mask-as_tank : (id : ℕ) → as_mask classes id ≡ true → as_tank classes id ≡ true → ⊥
  unfolding as_mask as_tank
  as_mask-as_tank id m k = grind arith

  as_mask-zero : (id : ℕ) → as_mask classes id ≡ true → id ≢ 0
  unfolding as_mask
  as_mask-zero id m e = grind arith

  as_tank-zero : (id : ℕ) → as_tank classes id ≡ true → id ≢ 0
  unfolding as_tank
  as_tank-zero id m e = grind arith

  untie-IsMutual :
      (mask tank : ℕ) (t : Ties)
      → as_mask classes mask ≡ true
      → as_tank classes tank ≡ true
      → t.gas_tank mask ≡ tank
      → IsMutual classes t
      → IsMutual classes (untie classes mask tank t)
  unfolding IsMutual at_id
  untie-IsMutual mask tank t am at e h m k mm kk =
      grind (arith, h m k mm kk, h mask tank am at, as_mask-zero m mm, as_tank-zero k kk)

  untie_mask-IsMutual :
      (mask tank : ℕ) (t : Ties)
      → as_mask classes mask ≡ true
      → as_tank classes tank ≡ true
      → t.gas_mask tank ≡ mask
      → IsMutual classes t
      → IsMutual classes (untie classes mask tank t)
  unfolding IsMutual
  untie_mask-IsMutual mask tank t am at e h =
      untie-IsMutual mask tank t am at ((h mask tank am at).1 e) h

  interface_changes-IsMutual :
      (item : ℕ) (t : Ties)
      → IsMutual classes t
      → IsMutual classes (interface_changes classes item t)
  unfolding interface_changes
  interface_changes-IsMutual item t h = elim (Bool-cases (as_mask classes item)) [
    | inl mask ↦ rw mask (elim (Bool-cases (as_tank classes (t.gas_tank item))) [
      | inl tied ↦ rw tied (untie-IsMutual item (t.gas_tank item) t mask tied refl h)
      | inr free ↦ rw free h
    ])
    | inr plain ↦ rw plain (elim (Bool-cases (as_tank classes item)) [
      | inl tank ↦ rw tank (elim (Bool-cases (as_mask classes (t.gas_mask item))) [
        | inl tied ↦ rw tied (untie_mask-IsMutual (t.gas_mask item) item t tied tank refl h)
        | inr free ↦ rw free h
      ])
      | inr other ↦ rw other h
    ])
  ]

  free_tank-alone :
      (tank mask : ℕ) (t : Ties)
      → as_mask classes (t.gas_mask tank) ≡ false
      → as_mask classes ((free_tank classes mask t).gas_mask tank) ≡ false
  unfolding free_tank at_id as_mask
  free_tank-alone tank mask t e = grind (arith, e)

  free_tank-forgets :
      (mask k : ℕ) (t : Ties)
      → as_mask classes mask ≡ true
      → as_tank classes k ≡ true
      → IsMutual classes t
      → (free_tank classes mask t).gas_mask k ≢ mask
  unfolding free_tank at_id IsMutual
  free_tank-forgets mask k t am kk h e = grind (arith, h mask k am kk, as_mask-zero mask am)

  free_tank-mutual :
      (mask m k : ℕ) (t : Ties)
      → m ≢ mask
      → as_mask classes m ≡ true
      → as_tank classes k ≡ true
      → as_mask classes mask ≡ true
      → IsMutual classes t
      → (t.gas_tank m ≡ k) ↔ ((free_tank classes mask t).gas_mask k ≡ m)
  unfolding free_tank at_id IsMutual
  free_tank-mutual mask m k t ne mm kk am h =
      grind (arith, h m k mm kk, h mask k am kk, as_mask-zero m mm)

  free_tank-gas_tank : (mask : ℕ) (t : Ties) → (free_tank classes mask t).gas_tank ≡ t.gas_tank
  unfolding free_tank
  free_tank-gas_tank mask t = grind arith

  tied : ℕ → ℕ → Ties → Ties
  tied tank mask t = set_gas_mask tank mask (set_gas_tank mask tank (free_tank classes mask t))

  tie_lem :
      (tank mask : ℕ) (t : Ties)
      → as_mask classes (t.gas_mask tank) ≡ false
      → tie classes tank mask t ≡ tied tank mask t
  unfolding tie tied
  tie_lem tank mask t alone = rw (free_tank-alone tank mask t alone) refl

  -- A tie that replaces the mask's old tank, for a tank without a living mask.
  tied-IsMutual :
      (tank mask : ℕ) (t : Ties)
      → as_tank classes tank ≡ true
      → as_mask classes mask ≡ true
      → as_mask classes (t.gas_mask tank) ≡ false
      → IsMutual classes t
      → IsMutual classes (tied tank mask t)
  unfolding tied IsMutual at_id
  tied-IsMutual tank mask t at am alone h m k mm kk = grind (
    arith,
    free_tank-mutual mask m k t,
    free_tank-forgets mask k t am kk h,
    h m k mm kk,
    free_tank-gas_tank mask t,
  )

  click_tank-IsMutual :
      (tank worn : ℕ) (t : Ties)
      → as_tank classes tank ≡ true
      → IsMutual classes t
      → IsMutual classes (click_tank classes tank worn t)
  unfolding click_tank
  click_tank-IsMutual tank worn t at h = elim (Bool-cases (as_mask classes (t.gas_mask tank))) [
    | inl tied ↦ rw tied (untie_mask-IsMutual (t.gas_mask tank) tank t tied at refl h)
    | inr free ↦ rw free (elim (Bool-cases (as_mask classes worn)) [
      | inl mask ↦
          rw mask (rw (tie_lem tank worn t free) (tied-IsMutual tank worn t at mask free h))
      | inr other ↦ rw other h
    ])
  ]

  run_from-IsMutual :
      (es : List Event) (t : Ties) → IsMutual classes t → IsMutual classes (run classes es t)
  unfolding run
  run_from-IsMutual [] t h = h
  run_from-IsMutual (leaves_slot item ∷ es) t h =
      run_from-IsMutual es _ (interface_changes-IsMutual item t h)
  run_from-IsMutual (is_clicked tank worn ∷ es) t h =
      run_from-IsMutual es _ (elim (Bool-cases (as_tank classes tank)) [
        | inl lives ↦ rw lives (click_tank-IsMutual tank worn t lives h)
        | inr other ↦ rw other h
      ])

  untied-IsMutual : IsMutual classes untied
  unfolding IsMutual
  untied-IsMutual m k mm kk = grind (arith, as_mask-zero m mm, as_tank-zero k kk)

  -- From masks and tanks that are not tied, after any history of items that leave the slots and tanks
  -- that are clicked, a living mask leads to a living tank exactly if the tank leads to the mask.
  pub run-IsMutual : (es : List Event) → IsMutual classes (run classes es untied)
  run-IsMutual es = run_from-IsMutual es untied untied-IsMutual

  none-as_tank : as_tank classes 0 ≡ false
  unfolding as_tank
  none-as_tank = refl

  none-as_mask : as_mask classes 0 ≡ false
  unfolding as_mask
  none-as_mask = refl

  -- What has left a slot is not tied to a living tank or mask.
  pub interface_changes_unties :
      (item : ℕ) (t : Ties)
      → (as_mask classes item ≡ true
          → as_tank classes ((interface_changes classes item t).gas_tank item) ≡ false)
        × (as_tank classes item ≡ true
            → as_mask classes ((interface_changes classes item t).gas_mask item) ≡ false)
  unfolding interface_changes at_id
  interface_changes_unties item t =
      (λ m. grind (arith, none-as_tank), λ k. grind (arith, none-as_mask, as_mask-as_tank item))
