-- ===== src/Pipes/Balance.antt =====
-- Pipes neither make nor lose gas or energy.
use griefly.Prelude.{
  ℕ, zero, suc, ◌==◌, ◌<◌, ◌≡◌, ◌≢◌, refl, ap, ◌∙◌, inl, inr, arith, Bool-cases, Option, none, some,
  List, [], ◌∷◌, length, length-set, get_elem?, set, get_elem?-set_ne,
}
use griefly.Prelude.Int.{ℤ, pos, ◌+ℤ◌, int_laws, parts_of}
use griefly.Atmos.Gas.{
  Gas, AtmosData, Quantity, gas, energy, measure, max_gas_level, update_macro_params,
}
use griefly.Atmos.Holder.{Pair, connect}
use griefly.Atmos.Holder.Transfer.{connect_conserves}
use griefly.Objects.{◌>>=◌}
use griefly.Pipes.{exchange_self, connect_self, connect_at, connect_with}

-- What all holders hold together.
abbrev pub total : Quantity → List AtmosData → ℤ
total q [] = pos 0
total q (d ∷ holders) = measure q d +ℤ total q holders

total-set :
    (q : Quantity) (holders : List AtmosData) (i : ℕ) (old new : AtmosData)
    → get_elem? holders i ≡ some old
    → total q (set holders i new) +ℤ measure q old ≡ total q holders +ℤ measure q new
total-set q [] i old new h = absurd (grind (arith, h))
total-set q (d ∷ holders) zero old new h =
    let same : measure q d ≡ measure q old =
      ap (λ o. elim o [ none ↦ measure q old | some e ↦ measure q e ]) h in
    omega (int_laws, parts_of same)
total-set q (d ∷ holders) (suc i) old new h =
    omega (int_laws, parts_of (total-set q holders i old new h))

exchange_self_same : (lo lg div n : ℤ) → exchange_self lo lg div n ≡ n
unfolding exchange_self
exchange_self_same lo lg div n = omega int_laws

connect_self_same :
    (lo lg div : ℤ) (d : AtmosData) (q : Quantity)
    → measure q (connect_self lo lg div d) ≡ measure q d
unfolding connect_self update_macro_params
connect_self_same lo lg div d (gas Gas.oxygen) = exchange_self_same _ _ _ _
connect_self_same lo lg div d (gas Gas.co2) = exchange_self_same _ _ _ _
connect_self_same lo lg div d (gas Gas.nytrogen) = exchange_self_same _ _ _ _
connect_self_same lo lg div d (gas Gas.plasma) = exchange_self_same _ _ _ _
connect_self_same lo lg div d energy = exchange_self_same _ _ _ _

connect_same :
    (lo lg div : ℤ) (p : Pair) (q : Quantity)
    → measure q (connect lo lg div p).owner +ℤ measure q (connect lo lg div p).guest
      ≡ measure q p.owner +ℤ measure q p.guest
connect_same lo lg div p (gas i) = (connect_conserves lo lg div p).0 i
connect_same lo lg div p energy = (connect_conserves lo lg div p).1

-- An outcome that is there and holds what the holders hold.
abbrev pub Conserves : List AtmosData → Option (List AtmosData) → Type 0
Conserves holders o =
    (after : List AtmosData) × (o ≡ some after)
    × (length after ≡ length holders)
    × ((q : Quantity) → total q after ≡ total q holders)

pub Conserves-some : (holders : List AtmosData) → Conserves holders (some holders)
Conserves-some holders = (holders, refl, refl, λ q. refl)

pub Conserves-bind :
    (holders : List AtmosData) (o : Option (List AtmosData))
    (next : List AtmosData → Option (List AtmosData))
    → Conserves holders o
    → ((mid : List AtmosData) → length mid ≡ length holders → Conserves mid (next mid))
    → Conserves holders (o >>= next)
Conserves-bind holders o next (mid, e, l, t) h =
    let (after, e', l', t') = h mid l in
    (after, ap (λ o. o >>= next) e ∙ e', l' ∙ l, λ q. t' q ∙ t q)

pub present :
    (holders : List AtmosData) (i : ℕ)
    → i < length holders
    → (d : AtmosData) × (get_elem? holders i ≡ some d)
present [] i h = absurd (omega arith)
present (d ∷ holders) zero h = (d, refl)
present (d ∷ holders) (suc i) h = present holders i (omega arith)

two_sets :
    (q : Quantity) (holders : List AtmosData) (i j : ℕ) (a b c d : AtmosData)
    → get_elem? holders i ≡ some a
    → get_elem? holders j ≡ some b
    → i ≢ j
    → measure q c +ℤ measure q d ≡ measure q a +ℤ measure q b
    → total q (set (set holders i c) j d) ≡ total q holders
two_sets q holders i j a b c d ea eb ne same =
    let first = parts_of (total-set q holders i a c ea) in
    let second =
      parts_of (total-set q (set holders i c) j b d (get_elem?-set_ne holders i j c ne ∙ eb)) in
    let same = parts_of same in omega (int_laws, first, second, same)

pub connect_at-Conserves :
    (lo lg div : ℤ) (i j : ℕ) (holders : List AtmosData)
    → i < length holders
    → j < length holders
    → Conserves holders (connect_at lo lg div i j holders)
unfolding connect_at
connect_at-Conserves lo lg div i j holders hi hj =
    let (a, ea) = present holders i hi in
    let (b, eb) = present holders j hj in
    elim (Bool-cases (i == j)) [
      | inl t ↦
          let new = connect_self lo lg div a in
          (
            set holders i new,
            rw ea (rw eb (rw t refl)),
            length-set holders i new,
            λ q.
                let moved = parts_of (total-set q holders i a new ea) in
                let same = parts_of (connect_self_same lo lg div a q) in
                omega (int_laws, moved, same),
          )
      | inr t ↦
          let p : Pair = record { owner = a; guest = b } in
          let r = connect lo lg div p in
          (
            set (set holders i r.owner) j r.guest,
            rw ea (rw eb (rw t refl)),
            length-set (set holders i r.owner) j r.guest ∙ length-set holders i r.owner,
            λ q.
                two_sets q holders i j a b r.owner r.guest ea eb (λ same. grind (arith, same, t))
                  (connect_same lo lg div p q),
          )
    ]

-- A holder that there may not be, in the list.
abbrev pub Inside : ℕ → Option ℕ → Type 0
Inside n none = Unit
Inside n (some i) = i < n

pub connect_with-Conserves :
    (o : Option ℕ) (j : ℕ) (holders : List AtmosData)
    → Inside (length holders) o
    → j < length holders
    → Conserves holders (connect_with o j holders)
unfolding connect_with
connect_with-Conserves none j holders hi hj = Conserves-some holders
connect_with-Conserves (some i) j holders hi hj =
    connect_at-Conserves max_gas_level max_gas_level (pos 500) i j holders hi hj
