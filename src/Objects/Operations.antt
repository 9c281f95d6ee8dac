-- ===== src/Objects/Operations.antt =====
-- The operations of the factory keep its table valid.
use griefly.Prelude.{
  ℕ, ◌+◌, ◌%◌, ◌^◌, ◌≤◌, ◌<◌, ◌≡◌, ◌⊎◌, inl, inr, refl, sym, ap, ◌∙◌, arith, Bool, Bool-cases, true,
  leb, ltb, if◌then◌else◌, Option, none, some, List, [], ◌∷◌, ◌++◌, length, get_elem?, set,
  get_elem?-set_cases, get_elem?-append_cases, get_elem?-append, get_elem?-last, get_elem?-lt,
  length-set, Option-cases, get_elem?-set_self, subst,
}
use griefly.Objects.{
  Object, ObjectFactory, new_factory, make_room, put, create_void, take_id, delete_later,
}
use griefly.Objects.Validity.{empty_entry, make_room_kept, make_room-lt, Entry, Living, IsValid}

pub new_factory-IsValid : IsValid new_factory
unfolding new_factory
new_factory-IsValid = record {
  listed_lives = λ i a e. absurd (empty_entry 100 i a e);
  listed_below = λ i a e. absurd (empty_entry 100 i a e);
  waiting_lives = λ k a e. absurd (grind (arith, e));
  waiting_once = λ k l a e e'. absurd (grind (arith, e));
  waiting_unlisted = λ k i a e e'. absurd (grind (arith, e));
  ids_positive = omega arith;
  table_small = omega arith;
}

Living-append : (heap more : List Object) (id a : ℕ) → Living heap id a → Living (heap ++ more) id a
Living-append heap more id a (o, e, named, alive) =
    (o, get_elem?-append heap more a o e, named, alive)

abbrev numbered : ℕ → ObjectFactory → ObjectFactory
numbered n f = record f { next_id = n }

-- The factory with one more object.
abbrev pub with_object : ℕ → Bool → ℕ → ObjectFactory → ObjectFactory
with_object id to_hearer n f = record f {
  objects_table = set (make_room id f.objects_table) id (some (length f.heap));
  heap = f.heap ++ (record { id = id; to_hearer = to_hearer; is_alive = true } ∷ []);
  next_id = n;
}

module _ (f : ObjectFactory) (valid : IsValid f) (id n : ℕ) (to_hearer : Bool) where
  listed_before :
      (i a : ℕ)
      → Entry (with_object id to_hearer n f).objects_table i a
      → (id ≡ i) × (some (length f.heap) ≡ some a) ⊎ Entry f.objects_table i a
  listed_before i a e = elim (get_elem?-set_cases (make_room id f.objects_table) id i _ _ e) [
    | inl p ↦ inl p
    | inr old ↦ inr (make_room_kept id i a f.objects_table old)
  ]

  new_lives :
      (i a : ℕ) → id ≡ i → length f.heap ≡ a → Living (with_object id to_hearer n f).heap i a
  new_lives i a ei ea =
      let object : Object = record { id = id; to_hearer = to_hearer; is_alive = true } in
      (
        object,
        ap (get_elem? (f.heap ++ (object ∷ []))) (sym ea) ∙ get_elem?-last f.heap object,
        ei,
        refl,
      )

  with_object-IsValid : id < n → f.next_id ≤ n → IsValid (with_object id to_hearer n f)
  with_object-IsValid h hn = record {
    listed_lives = λ i a e. elim (listed_before i a e) [
      | inl p ↦ new_lives i a p.0 (grind (arith, p))
      | inr old ↦ Living-append f.heap _ i a (valid.listed_lives i a old)
    ];
    listed_below = λ i a e. elim (listed_before i a e) [
      | inl p ↦ omega (arith, p.0)
      | inr old ↦ omega (arith, valid.listed_below i a old)
    ];
    waiting_lives =
        λ k a e. let (o, l) = valid.waiting_lives k a e in (o, Living-append f.heap _ o a l);
    waiting_once = valid.waiting_once;
    waiting_unlisted = λ k i a e e'. elim (listed_before i a e') [
      | inl p ↦
          let (o, (object, found, named, alive)) = valid.waiting_lives k a e in
          let short = get_elem?-lt f.heap a object found in absurd (grind (arith, p, short))
      | inr old ↦ valid.waiting_unlisted k i a e old
    ];
    ids_positive = omega (arith, valid.ids_positive);
    table_small = omega (
      arith,
      length-set (make_room id f.objects_table) id (some (length f.heap)),
      make_room-lt id f.objects_table valid.table_small,
    );
  }

-- What put does where it succeeds.
put_with :
    (id : ℕ) (to_hearer : Bool) (f g : ObjectFactory)
    → put id to_hearer f ≡ some g
    → (id < length (make_room id f.objects_table)) × (with_object id to_hearer f.next_id f ≡ g)
unfolding put
put_with id to_hearer f g e = elim (Bool-cases (ltb id (length (make_room id f.objects_table)))) [
  | inl t ↦ (grind (arith, t), grind (arith, e, t))
  | inr t ↦ absurd (grind (arith, e, t))
]

small : (id : ℕ) → id + 1 < 2 ^ 32 → (id + 1) % 2 ^ 32 ≡ id + 1
small id h = omega arith

pub take_id-IsValid :
    (to_hearer : Bool) (f g : ObjectFactory) → IsValid f → take_id to_hearer f ≡ some g → IsValid g
unfolding take_id
take_id-IsValid to_hearer f g valid e = elim (Option-cases (put f.next_id to_hearer f)) [
  | inl none_put ↦ absurd (grind (arith, e, none_put))
  | inr (h, found) ↦
      let (fits, same) = put_with f.next_id to_hearer f h found in
      let room = make_room-lt f.next_id f.objects_table valid.table_small in
      let result : record h { next_id = (f.next_id + 1) % 2 ^ 32 } ≡ g = grind (arith, e, found) in
      let next = small f.next_id (omega arith) in
      subst IsValid
        (ap (λ n. with_object f.next_id to_hearer n f) (sym next)
          ∙ ap (numbered ((f.next_id + 1) % 2 ^ 32)) same
          ∙ result)
        (with_object-IsValid f valid f.next_id (f.next_id + 1) to_hearer (omega arith)
          (omega arith))
]

-- delete_later
module _ (f : ObjectFactory) (valid : IsValid f) (id : ℕ) (entry : Option ℕ)
    (found : get_elem? f.objects_table id ≡ some entry) where
  abbrev without : ObjectFactory
  without = record f {
    ids_to_delete = f.ids_to_delete ++ (entry ∷ []);
    objects_table = set f.objects_table id none;
  }

  still_listed : (i a : ℕ) → Entry without.objects_table i a → Entry f.objects_table i a
  still_listed i a e = elim (get_elem?-set_cases f.objects_table id i none (some a) e) [
    | inl p ↦ absurd (grind (arith, p))
    | inr old ↦ old
  ]

  waiting_now :
      (k a : ℕ)
      → Entry without.ids_to_delete k a
      → (k ≡ length f.ids_to_delete) × Entry f.objects_table id a ⊎ Entry f.ids_to_delete k a
  waiting_now k a e = elim (get_elem?-append_cases f.ids_to_delete entry (some a) k e) [
    | inl p ↦ inl (p.0, found ∙ ap some p.1)
    | inr old ↦ inr old
  ]

  not_twice : (i a : ℕ) → Entry f.objects_table id a → ¬ Entry without.objects_table i a
  not_twice i a here e =
      let (o, o_found, o_named, o_alive) = valid.listed_lives id a here in
      let (q, q_found, q_named, q_alive) = valid.listed_lives i a (still_listed i a e) in
      let same : id ≡ i = grind (arith, o_found, o_named, q_found, q_named) in
      let gone =
        get_elem?-set_self f.objects_table id none (get_elem?-lt f.objects_table id entry found) in
      absurd (grind (arith, same, gone, e))

  without-IsValid : IsValid without
  without-IsValid = record {
    listed_lives = λ i a e. valid.listed_lives i a (still_listed i a e);
    listed_below = λ i a e. valid.listed_below i a (still_listed i a e);
    waiting_lives = λ k a e. elim (waiting_now k a e) [
      | inl p ↦ (id, valid.listed_lives id a p.1)
      | inr old ↦ valid.waiting_lives k a old
    ];
    waiting_once = λ k l a e e'. elim (waiting_now k a e) [
      | inl p ↦ elim (waiting_now l a e') [
        | inl q ↦ p.0 ∙ sym q.0
        | inr old ↦ absurd (valid.waiting_unlisted l id a old p.1)
      ]
      | inr old ↦ elim (waiting_now l a e') [
        | inl q ↦ absurd (valid.waiting_unlisted k id a old q.1)
        | inr old' ↦ valid.waiting_once k l a old old'
      ]
    ];
    waiting_unlisted = λ k i a e e'. elim (waiting_now k a e) [
      | inl p ↦ not_twice i a p.1 e'
      | inr old ↦ valid.waiting_unlisted k i a old (still_listed i a e')
    ];
    ids_positive = valid.ids_positive;
    table_small = omega (arith, length-set f.objects_table id none, valid.table_small);
  }

pub delete_later-IsValid :
    (id : ℕ) (f g : ObjectFactory) → IsValid f → delete_later id f ≡ some g → IsValid g
unfolding delete_later
delete_later-IsValid id f g valid e = elim (Option-cases (get_elem? f.objects_table id)) [
  | inl outside ↦ absurd (grind (arith, e, outside))
  | inr (entry, found) ↦
      let result : without f valid id entry found ≡ g = grind (arith, e, found) in
      subst IsValid result (without-IsValid f valid id entry found)
]

numbered-IsValid : (f : ObjectFactory) (n : ℕ) → IsValid f → f.next_id ≤ n → IsValid (numbered n f)
numbered-IsValid f n valid h = record {
  listed_lives = valid.listed_lives;
  listed_below = λ i a e. omega (arith, valid.listed_below i a e);
  waiting_lives = valid.waiting_lives;
  waiting_once = valid.waiting_once;
  waiting_unlisted = valid.waiting_unlisted;
  ids_positive = omega (arith, valid.ids_positive);
  table_small = valid.table_small;
}

-- The next id of create_void.
abbrev after_id : ℕ → ℕ → ℕ
after_id id next = if leb next id then (id + 1) % 2 ^ 32 else next

after_id_above :
    (id next : ℕ) → id + 1 < 2 ^ 32 → (id < after_id id next) × (next ≤ after_id id next)
after_id_above id next h = elim (Bool-cases (leb next id)) [
  | inl t ↦ rw t (omega arith, grind (arith, t))
  | inr t ↦ rw t (grind (arith, t), omega arith)
]

pub create_void-IsValid :
    (to_hearer : Bool) (id_new : ℕ) (f g : ObjectFactory)
    → IsValid f
    → create_void to_hearer id_new f ≡ some g
    → IsValid g
unfolding create_void
create_void-IsValid to_hearer id_new f g valid e =
    let (fits, same) = put_with id_new to_hearer (numbered (after_id id_new f.next_id) f) g e in
    let room = make_room-lt id_new f.objects_table valid.table_small in
    let above = after_id_above id_new f.next_id (omega arith) in
    subst IsValid same
      (with_object-IsValid f valid id_new (after_id id_new f.next_id) to_hearer above.0 above.1)
