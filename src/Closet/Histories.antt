-- ===== src/Closet/Histories.antt =====
-- A closet under any history of attacks and bumps.
use griefly.Prelude.{
  ℕ, ◌+◌, ◌≡◌, refl, ◌∙◌, inl, inr, Bool, true, false, not, ◌&&◌, if◌then◌else◌, List, [], ◌∷◌, map,
  arith, Bool-cases,
}
use griefly.Tile.{Levels, put_passable, air, full}
use griefly.Closet.{
  Closet, security_locker, is_locker, Site, new_closet, new_locker, add_object, take_in, take_all,
  base_close, close_it, base_open, open_it, base_attack_by, attack_by, bump, lock, unlock,
  on_closet, Event, is_attacked, is_bumped, step, run,
}
use griefly.Closet.Gathering.{times, times-append, close_it-Moves}

module _ (fits : ℕ → Bool) where
  -- Each object is as often in the closet and on the tile together as it was; an open closet is empty
  -- and not locked; and the level for all directions is that of
  -- air exactly in a closed closet.
  pub record IsOrderly (s t : Site) : Type 0 where
    pub kept :
        (x : ℕ)
        → times x t.tile + times x t.closet.content ≡ times x s.tile + times x s.closet.content
    pub empty_open : t.closet.is_open ≡ true → t.closet.content ≡ []
    pub locked_shut : t.closet.locked ≡ true → t.closet.is_open ≡ false
    pub lockers : t.closet.locked ≡ true → is_locker t.closet.kind ≡ true
    pub level : t.closet.passable.whole ≡ (if t.closet.is_open then full else air)

  open_it-IsOrderly : (s t : Site) → IsOrderly s t → IsOrderly s (open_it t)
  unfolding open_it base_open put_passable
  open_it-IsOrderly s t v = record {
    kept = λ x. grind (arith, v.kept x, times-append x t.tile t.closet.content);
    empty_open = grind arith;
    locked_shut = grind arith;
    lockers = grind arith;
    level = grind arith;
  }

  close_it-shut :
      (s : Site)
      → ((close_it fits s).closet.is_open ≡ false) × ((close_it fits s).closet.passable.whole ≡ air)
  unfolding close_it base_close put_passable
  close_it-shut s = elim (Bool-cases (is_locker s.closet.kind)) [
    | inl locker ↦ rw locker (refl, refl)
    | inr other ↦ rw other (refl, refl)
  ]

  take_all-kind :
      (ids : List ℕ) (s : Site)
      → ((take_all fits ids s).closet.kind ≡ s.closet.kind)
        × ((take_all fits ids s).closet.locked ≡ s.closet.locked)
  unfolding take_all take_in add_object
  take_all-kind [] s = (refl, refl)
  take_all-kind (id ∷ ids) s =
      let rest = take_all-kind ids (take_in fits id s) in
      (rest.0 ∙ grind arith, rest.1 ∙ grind arith)

  close_it-locker :
      (s : Site)
      → (s.closet.locked ≡ true → is_locker s.closet.kind ≡ true)
      → (close_it fits s).closet.locked ≡ true
      → is_locker (close_it fits s).closet.kind ≡ true
  unfolding close_it base_close
  close_it-locker s h = grind (arith, take_all-kind s.tile s, h)

  close_it-IsOrderly : (s t : Site) → IsOrderly s t → IsOrderly s (close_it fits t)
  close_it-IsOrderly s t v = record {
    kept = λ x.
        grind (arith, v.kept x, (close_it-Moves fits x t).left, (close_it-Moves fits x t).gained);
    empty_open = λ e. grind (arith, close_it-shut t);
    locked_shut = λ e. (close_it-shut t).0;
    lockers = λ e. close_it-locker t v.lockers e;
    level = rw (close_it-shut t).0 (close_it-shut t).1;
  }

  if-IsOrderly :
      (b : Bool) (s t u : Site) → IsOrderly s t → IsOrderly s u → IsOrderly s (if b then t else u)
  if-IsOrderly true s t u v w = v
  if-IsOrderly false s t u v w = w

  abbrev turn : Bool → Closet → Closet
  turn hand c = (if c.locked then unlock else if hand then (λ c. c) else lock) c

  turned-IsOrderly :
      (hand : Bool) (s t : Site)
      → is_locker t.closet.kind ≡ true
      → IsOrderly s t
      → IsOrderly s (on_closet (turn hand) t)
  unfolding lock unlock
  turned-IsOrderly hand s t locker v = record {
    kept = λ x. grind (arith, v.kept x);
    empty_open = grind arith;
    locked_shut = grind arith;
    lockers = grind arith;
    level = grind arith;
  }

  attack_by-IsOrderly :
      (hand : Bool) (s t : Site) → IsOrderly s t → IsOrderly s (attack_by fits hand t)
  unfolding attack_by base_attack_by lock unlock
  attack_by-IsOrderly hand s t v =
      elim (Bool-cases (is_locker t.closet.kind && not t.closet.is_open)) [
        | inl shut ↦ rw shut (turned-IsOrderly hand s t (grind arith) v)
        | inr other ↦ rw other (
            if-IsOrderly t.closet.is_open s _ _
              (if-IsOrderly hand s _ _ (close_it-IsOrderly s t v) v) (open_it-IsOrderly s t v))
      ]

  step-IsOrderly : (e : Event) (s t : Site) → IsOrderly s t → IsOrderly s (step fits e t)
  unfolding step bump
  step-IsOrderly (is_attacked hand) s t v = attack_by-IsOrderly hand s t v
  step-IsOrderly (is_bumped id) s t v = if-IsOrderly _ s _ _ (open_it-IsOrderly s t v) v

  -- Any history of attacks and bumps keeps an orderly closet orderly.
  pub run-IsOrderly : (es : List Event) (s t : Site) → IsOrderly s t → IsOrderly s (run fits es t)
  unfolding run
  run-IsOrderly [] s t v = v
  run-IsOrderly (e ∷ es) s t v = run-IsOrderly es s (step fits e t) (step-IsOrderly e s t v)

  new-IsOrderly :
      (levels : Levels) (tile : List ℕ)
      → IsOrderly
          (record { closet = new_closet levels; tile = tile })
          (record { closet = new_closet levels; tile = tile })
  unfolding new_closet put_passable
  new-IsOrderly levels tile = record {
    kept = λ x. refl;
    empty_open = grind arith;
    locked_shut = grind arith;
    lockers = grind arith;
    level = refl;
  }

  new_locker-IsOrderly :
      (levels : Levels) (tile : List ℕ)
      → IsOrderly
          (record { closet = new_locker levels; tile = tile })
          (record { closet = new_locker levels; tile = tile })
  unfolding new_locker new_closet put_passable
  new_locker-IsOrderly levels tile = record {
    kept = λ x. refl;
    empty_open = grind arith;
    locked_shut = grind arith;
    lockers = grind arith;
    level = refl;
  }

  -- A new closet and a new security locker, on any tile, stay orderly under any history of attacks and
  -- bumps: no object is lost or doubled, an open one is empty and not locked, and its level
  -- for all directions is that of air while it is closed and full while it is open.
  pub run-new-IsOrderly :
      (es : List Event) (levels : Levels) (tile : List ℕ)
      → let closet : Site = record { closet = new_closet levels; tile = tile } in
        let locker : Site = record { closet = new_locker levels; tile = tile } in
        IsOrderly closet (run fits es closet) × IsOrderly locker (run fits es locker)
  run-new-IsOrderly es levels tile = (
    run-IsOrderly es _ _ (new-IsOrderly levels tile),
    run-IsOrderly es _ _ (new_locker-IsOrderly levels tile),
  )

  attacked_locker :
      (hand : Bool) (s : Site)
      → s.closet.kind ≡ security_locker
      → s.closet.is_open ≡ false
      → let t = attack_by fits hand s in
        (t.closet.kind ≡ security_locker)
        × (t.closet.is_open ≡ false)
        × (t.closet.content ≡ s.closet.content)
        × (t.tile ≡ s.tile)
  unfolding attack_by lock unlock
  attacked_locker hand s k c =
      (grind (arith, k, c), grind (arith, k, c), grind (arith, k, c), grind (arith, k, c))

  -- A closed security locker is never opened by attacks, with whatever they are made.
  pub attacked_locker_stays_shut :
      (hands : List Bool) (s : Site)
      → s.closet.kind ≡ security_locker
      → s.closet.is_open ≡ false
      → let t = run fits (map is_attacked hands) s in
        (t.closet.is_open ≡ false) × (t.closet.content ≡ s.closet.content) × (t.tile ≡ s.tile)
  unfolding run step
  attacked_locker_stays_shut [] s k c = (c, refl, refl)
  attacked_locker_stays_shut (hand ∷ hands) s k c =
      let once = attacked_locker hand s k c in
      let rest = attacked_locker_stays_shut hands (attack_by fits hand s) once.0 once.1 in
      (rest.0, rest.1 ∙ once.2, rest.2 ∙ once.3)
