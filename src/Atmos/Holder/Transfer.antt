-- ===== src/Atmos/Holder/Transfer.antt =====
-- What moves between two mixtures, and that nothing is lost or made.
use griefly.Prelude.{ℕ, ◌*◌, ◌/◌, ◌≤◌, ◌≡◌, refl, arith}
use griefly.Prelude.Int.{ℤ, pos, negsuc, ◌+ℤ◌, ◌-ℤ◌, ◌≤ℤ◌, int_laws, parts_apart, min_ℤ, +ℤ_comm}
use griefly.Atmos.Gas.{Gas, AtmosData, amount, put, IsPhysical, update_macro_params}
use griefly.Atmos.Holder.{
  Sides, Pair, clamp_level, share, exchange, mix, connect, connect_default, add_gase, remove_gase,
  truncate, add_energy, set_volume,
}

share_le : (n l : ℕ) → l ≤ 1000 → (n * l) / 1000 ≤ n
share_le n l h = grind arith

clamp_level_range : (l : ℤ) → (pos 0 ≤ℤ clamp_level l) × (clamp_level l ≤ℤ pos 1000)
unfolding clamp_level
clamp_level_range l = grind int_laws

share_bounds :
    (n l : ℤ) → pos 0 ≤ℤ n → pos 0 ≤ℤ l → l ≤ℤ pos 1000 → (pos 0 ≤ℤ share n l) × (share n l ≤ℤ n)
unfolding share
share_bounds (pos n) (pos l) hn hl hm = grind (int_laws, share_le n l)
share_bounds (pos n) (negsuc l) hn hl hm = absurd (omega arith)
share_bounds (negsuc n) l hn hl hm = absurd (omega arith)

exchange_total :
    (a b c : ℤ) (s : Sides)
    → (exchange a b c s).owner +ℤ (exchange a b c s).guest ≡ s.owner +ℤ s.guest
unfolding exchange
exchange_total a b c s = omega int_laws

-- Whatever the levels, `Connect` neither makes nor loses gas, of any kind, or energy.
pub connect_conserves :
    (level_owner level_guest div : ℤ) (p : Pair)
    → let q = connect level_owner level_guest div p in
      ((i : Gas)
        → amount i q.owner.gases +ℤ amount i q.guest.gases
          ≡ amount i p.owner.gases +ℤ amount i p.guest.gases)
      × (q.owner.energy +ℤ q.guest.energy ≡ p.owner.energy +ℤ p.guest.energy)
unfolding connect mix update_macro_params
connect_conserves lo lg div p = (by_gas, exchange_total _ _ _ _)
  where
    by_gas :
        (i : Gas)
        → amount i (connect lo lg div p).owner.gases +ℤ amount i (connect lo lg div p).guest.gases
          ≡ amount i p.owner.gases +ℤ amount i p.guest.gases
    by_gas Gas.oxygen = exchange_total _ _ _ _
    by_gas Gas.co2 = exchange_total _ _ _ _
    by_gas Gas.nytrogen = exchange_total _ _ _ _
    by_gas Gas.plasma = exchange_total _ _ _ _

exchange_pos :
    (a b c : ℤ) (s : Sides)
    → pos 0 ≤ℤ s.owner
    → pos 0 ≤ℤ s.guest
    → let r = exchange (clamp_level a) (clamp_level b) (clamp_level c) s in
      (pos 0 ≤ℤ r.owner) × (pos 0 ≤ℤ r.guest)
unfolding exchange
exchange_pos a b c s ho hg =
    let sa = clamp_level_range a in
    let sb = clamp_level_range b in
    let sc = clamp_level_range c in
    let from_owner = share_bounds s.owner (clamp_level a) ho sa.0 sa.1 in
    let from_guest = share_bounds s.guest (clamp_level b) hg sb.0 sb.1 in
    let back =
      share_bounds (share s.owner (clamp_level a) +ℤ share s.guest (clamp_level b)) (clamp_level c)
        (omega (int_laws, from_owner, from_guest)) sc.0 sc.1 in
    (omega (int_laws, from_owner, back), omega (int_laws, from_guest, back))

-- Two mixtures with nothing below zero have nothing below zero after `Connect`, at any levels.
connect-IsPhysical :
    (level_owner level_guest div : ℤ) (p : Pair)
    → IsPhysical p.owner
    → IsPhysical p.guest
    → let q = connect level_owner level_guest div p in IsPhysical q.owner × IsPhysical q.guest
unfolding connect mix update_macro_params
connect-IsPhysical lo lg div p vo vg =
    let oxygen = exchange_pos lo lg div _ vo.oxygen_pos vg.oxygen_pos in
    let co2 = exchange_pos lo lg div _ vo.co2_pos vg.co2_pos in
    let nytrogen = exchange_pos lo lg div _ vo.nytrogen_pos vg.nytrogen_pos in
    let plasma = exchange_pos lo lg div _ vo.plasma_pos vg.plasma_pos in
    let energy = exchange_pos lo lg div _ vo.energy_pos vg.energy_pos in
    (
      record {
        oxygen_pos = oxygen.0;
        co2_pos = co2.0;
        nytrogen_pos = nytrogen.0;
        plasma_pos = plasma.0;
        energy_pos = energy.0;
      },
      record {
        oxygen_pos = oxygen.1;
        co2_pos = co2.1;
        nytrogen_pos = nytrogen.1;
        plasma_pos = plasma.1;
        energy_pos = energy.1;
      },
    )

exchange_evens :
    (s : Sides)
    → pos 0 ≤ℤ s.owner
    → pos 0 ≤ℤ s.guest
    → let r = exchange (pos 1000) (pos 1000) (pos 500) s in
      (r.owner ≤ℤ r.guest) × (r.guest ≤ℤ r.owner +ℤ pos 1)
unfolding exchange share
exchange_evens s ho hg = grind (int_laws, parts_apart s.owner, parts_apart s.guest)

-- With its default levels `Connect` evens two mixtures with nothing below zero out: of each gas, and of energy, the owner
-- is left with half of the sum rounded down, the guest with at most one unit more.
connect_default_evens :
    (p : Pair)
    → IsPhysical p.owner
    → IsPhysical p.guest
    → let q = connect_default p in
      ((i : Gas)
        → (amount i q.owner.gases ≤ℤ amount i q.guest.gases)
          × (amount i q.guest.gases ≤ℤ amount i q.owner.gases +ℤ pos 1))
      × (q.owner.energy ≤ℤ q.guest.energy)
      × (q.guest.energy ≤ℤ q.owner.energy +ℤ pos 1)
unfolding connect_default mix update_macro_params clamp_level
connect_default_evens p vo vg =
    let energy = exchange_evens _ vo.energy_pos vg.energy_pos in (by_gas, energy.0, energy.1)
  where
    by_gas :
        (i : Gas)
        → (amount i (connect_default p).owner.gases ≤ℤ amount i (connect_default p).guest.gases)
          × (amount i (connect_default p).guest.gases
              ≤ℤ amount i (connect_default p).owner.gases +ℤ pos 1)
    by_gas Gas.oxygen = exchange_evens _ vo.oxygen_pos vg.oxygen_pos
    by_gas Gas.co2 = exchange_evens _ vo.co2_pos vg.co2_pos
    by_gas Gas.nytrogen = exchange_evens _ vo.nytrogen_pos vg.nytrogen_pos
    by_gas Gas.plasma = exchange_evens _ vo.plasma_pos vg.plasma_pos

amount-put_self : (i : Gas) (n : ℤ) (d : AtmosData) → amount i (put i n d.gases) ≡ n
amount-put_self Gas.oxygen n d = refl
amount-put_self Gas.co2 n d = refl
amount-put_self Gas.nytrogen n d = refl
amount-put_self Gas.plasma n d = refl

-- What `RemoveGase` returns is what the mixture has less of: the amount asked for, or all there is
-- when that is less. The energy stays.
pub remove_gase_accounts :
    (i : Gas) (n : ℤ) (d : AtmosData)
    → let (left, taken) = remove_gase i n d in
      (amount i left.gases +ℤ taken ≡ amount i d.gases)
      × (taken ≡ min_ℤ n (amount i d.gases))
      × (left.energy ≡ d.energy)
unfolding remove_gase update_macro_params
remove_gase_accounts i n d = ground (
  arith,
  amount-put_self i (pos 0) d,
  amount-put_self i (amount i d.gases -ℤ n) d,
  back (amount i d.gases) n,
  +ℤ_comm (pos 0) (amount i d.gases),
  forth (amount i d.gases),
)
  where
    back : (a b : ℤ) → (a -ℤ b) +ℤ b ≡ a
    back a b = omega int_laws

    forth : (a : ℤ) → a +ℤ pos 0 ≡ a
    forth a = omega int_laws

-- Temperature and pressure are those of the gases, the energy and the volume.
abbrev pub IsCurrent : AtmosData → Type 0
IsCurrent d = update_macro_params d ≡ d

update_macro_params-IsCurrent : (d : AtmosData) → IsCurrent (update_macro_params d)
unfolding update_macro_params
update_macro_params-IsCurrent d = refl

-- Every operation that changes a mixture, but `Ignite`, brings temperature and pressure up to date.
pub operations-IsCurrent :
    (d : AtmosData) (p : Pair) (i : Gas) (a b c : ℤ)
    → IsCurrent (add_gase i a d)
      × IsCurrent (add_energy a d)
      × IsCurrent (set_volume a d)
      × IsCurrent (remove_gase i a d).0
      × IsCurrent (truncate d)
      × IsCurrent (connect a b c p).owner
      × IsCurrent (connect a b c p).guest
unfolding add_gase add_energy set_volume remove_gase truncate connect
operations-IsCurrent d p i a b c = (
  update_macro_params-IsCurrent _,
  update_macro_params-IsCurrent _,
  update_macro_params-IsCurrent _,
  ground (
    arith,
    update_macro_params-IsCurrent (record d { gases = put i (pos 0) d.gases }),
    update_macro_params-IsCurrent (record d { gases = put i (amount i d.gases -ℤ a) d.gases }),
  ),
  update_macro_params-IsCurrent _,
  update_macro_params-IsCurrent _,
  update_macro_params-IsCurrent _,
)
