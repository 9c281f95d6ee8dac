-- ===== src/World/Players.antt =====
-- That net ids and mobs lead to each other.
use griefly.Prelude.{
  ℕ, ◌≡◌, ◌≢◌, refl, sym, ap, subst, ◌∙◌, inl, inr, true, false, ltb, ◌==◌, if◌then◌else◌, [], ◌∷◌,
  All, ◌<◌, ◌≤◌, arith, Bool-cases, ==→≡, ==→≢,
}
use griefly.World.{Players, set_player_id, get_player_id, get_net_id, move_mind_to}

get_player_id-set :
    (net_id real_id other : ℕ) (players : Players)
    → get_player_id other (set_player_id net_id real_id players)
      ≡ (if other == net_id then real_id else get_player_id other players)
unfolding get_player_id set_player_id
get_player_id-set net_id real_id other [] = grind arith
get_player_id-set net_id real_id other ((key, value) ∷ rest) =
    let later = get_player_id-set net_id real_id other rest in
    elim (Bool-cases (key == net_id)) [
      | inl same ↦ rw same (grind (arith, ==→≡ key net_id same))
      | inr apart ↦ elim (Bool-cases (ltb net_id key)) [
        | inl before ↦ rw apart (rw before (grind (arith, apart)))
        | inr after ↦ rw apart (rw after (grind (arith, later, apart)))
      ]
    ]

none-player : (net_id : ℕ) → get_player_id net_id [] ≡ 0
unfolding get_player_id
none-player net_id = refl

none-mob : (mob : ℕ) → get_net_id mob [] ≡ 0
unfolding get_net_id
none-mob mob = refl

-- The keys of a QMap go up.
abbrev pub IsSorted : Players → Type 0
IsSorted [] = Unit
IsSorted ((key, value) ∷ rest) = All (λ p. key < p.0) rest × IsSorted rest

All-set :
    (low net_id real_id : ℕ) (players : Players)
    → low < net_id
    → All (λ p. low < p.0) players
    → All (λ p. low < p.0) (set_player_id net_id real_id players)
unfolding set_player_id
All-set low net_id real_id [] lt all = (lt, _)
All-set low net_id real_id ((key, value) ∷ rest) lt all =
    let later = All-set low net_id real_id rest lt all.1 in
    elim (Bool-cases (key == net_id)) [
      | inl same ↦ rw same all
      | inr apart ↦ elim (Bool-cases (ltb net_id key)) [
        | inl before ↦ rw apart (rw before (lt, all))
        | inr after ↦ rw apart (rw after (all.0, later))
      ]
    ]

All-lower :
    (low high : ℕ) (players : Players)
    → low ≤ high
    → All (λ p. high < p.0) players
    → All (λ p. low < p.0) players
All-lower low high [] le all = _
All-lower low high ((key, value) ∷ rest) le all =
    (omega (arith, all.0), All-lower low high rest le all.1)

set_player_id-IsSorted :
    (net_id real_id : ℕ) (players : Players)
    → IsSorted players
    → IsSorted (set_player_id net_id real_id players)
unfolding set_player_id
set_player_id-IsSorted net_id real_id [] sorted = (_, _)
set_player_id-IsSorted net_id real_id ((key, value) ∷ rest) sorted =
    elim (Bool-cases (key == net_id)) [
      | inl same ↦ rw same sorted
      | inr apart ↦ elim (Bool-cases (ltb net_id key)) [
        | inl before ↦
            let lt : net_id < key = grind (arith, before) in
            rw apart
              (rw before ((lt, All-lower net_id key rest (omega (arith, lt)) sorted.0), sorted))
        | inr after ↦
            let lt : key < net_id = grind (arith, apart, after) in
            rw apart (
              rw after (
                All-set key net_id real_id rest lt sorted.0,
                set_player_id-IsSorted net_id real_id rest sorted.1,
              ))
      ]
    ]

get_player_id-below :
    (key : ℕ) (players : Players) → All (λ p. key < p.0) players → get_player_id key players ≡ 0
unfolding get_player_id
get_player_id-below key [] all = refl
get_player_id-below key ((k, value) ∷ rest) all =
    grind (arith, get_player_id-below key rest all.1, all.0)

get_net_id_later :
    (mob key value : ℕ) (rest : Players)
    → (value == mob) ≡ false
    → get_net_id mob ((key, value) ∷ rest) ≡ get_net_id mob rest
unfolding get_net_id
get_net_id_later mob key value rest e = rw e refl

get_net_id_first :
    (mob key value : ℕ) (rest : Players)
    → (value == mob) ≡ true
    → get_net_id mob ((key, value) ∷ rest) ≡ key
unfolding get_net_id
get_net_id_first mob key value rest e = rw e refl

get_player_id_later :
    (n key value : ℕ) (rest : Players)
    → (key == n) ≡ false
    → get_player_id n ((key, value) ∷ rest) ≡ get_player_id n rest
unfolding get_player_id
get_player_id_later n key value rest e = rw e refl

get_player_id_first :
    (n key value : ℕ) (rest : Players)
    → (key == n) ≡ true
    → get_player_id n ((key, value) ∷ rest) ≡ value
unfolding get_player_id
get_player_id_first n key value rest e = rw e refl

equal_self : (a : ℕ) → (a == a) ≡ true
equal_self a = ground arith

-- A key that is below the others is not one that has a player among them.
apart_below :
    (key n mob : ℕ) (rest : Players)
    → All (λ p. key < p.0) rest
    → mob ≢ 0
    → get_player_id n rest ≡ mob
    → (key == n) ≡ false
apart_below key n mob rest low nz e = elim (Bool-cases (key == n)) [
  | inl same ↦ absurd (
      nz (
        sym e
        ∙ ap (λ k. get_player_id k rest) (sym (==→≡ key n same))
        ∙ get_player_id-below key rest low))
  | inr apart ↦ apart
]

-- The player that GetNetId finds has the mob.
get_player_id-get_net_id :
    (net_id mob : ℕ) (players : Players)
    → mob ≢ 0
    → IsSorted players
    → get_player_id net_id players ≡ mob
    → get_player_id (get_net_id mob players) players ≡ mob
get_player_id-get_net_id net_id mob [] nz sorted e = absurd (nz (sym e ∙ none-player net_id))
get_player_id-get_net_id net_id mob ((key, value) ∷ rest) nz sorted e =
    elim (Bool-cases (value == mob)) [
      | inl same ↦
          ap (λ k. get_player_id k ((key, value) ∷ rest)) (get_net_id_first mob key value rest same)
          ∙ get_player_id_first key key value rest (equal_self key)
          ∙ ==→≡ value mob same
      | inr other ↦
          let later = get_player_id-get_net_id net_id mob rest nz sorted.1 (there other) in
          ap (λ k. get_player_id k ((key, value) ∷ rest))
            (get_net_id_later mob key value rest other)
          ∙ get_player_id_later _ key value rest (apart_below key _ mob rest sorted.0 nz later)
          ∙ later
    ]
  where
    there : (value == mob) ≡ false → get_player_id net_id rest ≡ mob
    there other = elim (Bool-cases (key == net_id)) [
      | inl same ↦
          absurd (==→≢ value mob other (sym (get_player_id_first net_id key value rest same) ∙ e))
      | inr apart ↦ sym (get_player_id_later net_id key value rest apart) ∙ e
    ]

get_net_id_none :
    (mob : ℕ) (players : Players)
    → mob ≢ 0
    → IsSorted players
    → ((a : ℕ) → get_player_id a players ≢ mob)
    → get_net_id mob players ≡ 0
get_net_id_none mob [] nz sorted h = none-mob mob
get_net_id_none mob ((key, value) ∷ rest) nz sorted h = elim (Bool-cases (value == mob)) [
  | inl same ↦
      absurd (h key (get_player_id_first key key value rest (equal_self key) ∙ ==→≡ value mob same))
  | inr other ↦
      get_net_id_later mob key value rest other
      ∙ get_net_id_none mob rest nz sorted.1 (λ a e.
        h a (get_player_id_later a key value rest (apart_below key a mob rest sorted.0 nz e) ∙ e))
]

-- A sorted table in which no mob has two players, and no player the id 0.
pub record IsTable (players : Players) : Type 0 where
  pub sorted : IsSorted players
  pub own_mob :
      (a b : ℕ)
      → get_player_id a players ≢ 0
      → get_player_id a players ≡ get_player_id b players
      → a ≡ b
  pub no_player_zero : get_player_id 0 players ≡ 0

-- In such a table GetNetId of the mob of a player is the player.
get_net_id-get_player_id :
    (net_id : ℕ) (players : Players)
    → IsTable players
    → get_player_id net_id players ≢ 0
    → get_net_id (get_player_id net_id players) players ≡ net_id
get_net_id-get_player_id net_id players t nz =
    let mob = get_player_id net_id players in
    sym (
      t.own_mob net_id (get_net_id mob players) nz
        (sym (get_player_id-get_net_id net_id mob players nz t.sorted refl)))

-- A player that gets a mob which no player has.
set_player_id-IsTable :
    (net_id mob : ℕ) (players : Players)
    → IsTable players
    → net_id ≢ 0
    → ((a : ℕ) → get_player_id a players ≢ mob)
    → IsTable (set_player_id net_id mob players)
set_player_id-IsTable net_id mob players t nz fresh = record {
  sorted = set_player_id-IsSorted net_id mob players t.sorted;
  own_mob = λ a b na e. grind (
    arith,
    get_player_id-set net_id mob a players,
    get_player_id-set net_id mob b players,
    t.own_mob a b,
    fresh a,
    fresh b,
  );
  no_player_zero = grind (arith, get_player_id-set net_id mob 0 players, t.no_player_zero);
}

-- What has become of a table in which a player has gone from one mob to another.
pub record Moved (net_id mob other : ℕ) (before after : Players) : Type 0 where
  pub has_other : get_player_id net_id after ≡ other
  pub other_has : get_net_id other after ≡ net_id
  pub mob_left : get_net_id mob after ≡ 0
  pub rest_kept : (a : ℕ) → a ≢ net_id → get_player_id a after ≡ get_player_id a before
  pub table : IsTable after

set_player_id-Moved :
    (net_id mob other : ℕ) (players : Players)
    → IsTable players
    → get_player_id net_id players ≡ mob
    → mob ≢ 0
    → other ≢ 0
    → ((a : ℕ) → get_player_id a players ≢ other)
    → Moved net_id mob other players (set_player_id net_id other players)
set_player_id-Moved net_id mob other players t e nz oz fresh = record {
  has_other = has;
  other_has =
      ap (λ m. get_net_id m after) (sym has)
      ∙ get_net_id-get_player_id net_id after table (λ z. oz (sym has ∙ z));
  mob_left = get_net_id_none mob after nz table.sorted (λ a f. grind (
    arith,
    get_player_id-set net_id other a players,
    f,
    e,
    nz,
    fresh net_id,
    t.own_mob net_id a,
  ));
  rest_kept = λ a ne. grind (arith, get_player_id-set net_id other a players, ne);
  table = table;
}
  where
    after : Players
    after = set_player_id net_id other players

    table : IsTable after
    table =
        set_player_id-IsTable net_id other players t
          (λ z. nz (sym e ∙ ap (λ n. get_player_id n players) z ∙ t.no_player_zero)) fresh

    has : get_player_id net_id after ≡ other
    has = grind (arith, get_player_id-set net_id other net_id players)

-- In a table where no mob has two players and none has the id 0, MoveMindTo of a player's mob to one
-- that no player has gives the player the other mob: the two lead to each other then, the old mob has
-- no player, all other players keep theirs, and the table stays as it should be.
pub move_mind_to_moves :
    (net_id mob other : ℕ) (players : Players)
    → IsTable players
    → get_player_id net_id players ≡ mob
    → mob ≢ 0
    → other ≢ 0
    → ((a : ℕ) → get_player_id a players ≢ other)
    → Moved net_id mob other players (move_mind_to mob other players)
unfolding move_mind_to
move_mind_to_moves net_id mob other players t e nz oz fresh =
    subst
      (λ n.
        Moved net_id mob other players (if n == 0 then players else set_player_id n other players))
      (sym found)
      (rw (apart_zero net_id some_player)
        (set_player_id-Moved net_id mob other players t e nz oz fresh))
  where
    found : get_net_id mob players ≡ net_id
    found =
        ap (λ m. get_net_id m players) (sym e)
        ∙ get_net_id-get_player_id net_id players t (λ z. nz (sym e ∙ z))

    some_player : net_id ≢ 0
    some_player z = nz (sym e ∙ ap (λ n. get_player_id n players) z ∙ t.no_player_zero)

    apart_zero : (n : ℕ) → n ≢ 0 → (n == 0) ≡ false
    apart_zero n h = grind (arith, h)
