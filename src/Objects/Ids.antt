-- ===== src/Objects/Ids.antt =====
-- The ids of objects: new ones are fresh, and a lookup finds what was put under the id.
use griefly.Prelude.{
  ℕ, zero, suc, ◌+◌, ◌*◌, ◌%◌, ◌^◌, ◌≤◌, ◌<◌, ◌≡◌, ◌≢◌, inl, inr, refl, sym, ◌∙◌, arith, Bool,
  Bool-cases, leb, Option, none, some, List, [], ◌∷◌, ◌++◌, length, take, replicate, get_elem?, set,
  get_elem?-lt, get_elem?-set_self, get_elem?-set_ne, lt→ltb,
}
use griefly.Objects.{ObjectFactory, put, take_id, make_room, delete_later, get_from_id_table}
use griefly.Objects.Operations.{with_object}
use griefly.Objects.Validity.{IsValid, Entry, length-resize}

get_elem?-take :
    (n m i : ℕ) (xs : List (Option ℕ)) (w : Option ℕ)
    → length xs ≤ n
    → get_elem? xs i ≡ some w
    → get_elem? (take n xs ++ replicate m none) i ≡ some w
get_elem?-take n m i [] w h e = absurd (grind (arith, e))
get_elem?-take zero m i (x ∷ xs) w h e = absurd (omega arith)
get_elem?-take (suc n) m zero (x ∷ xs) w h e = e
get_elem?-take (suc n) m (suc i) (x ∷ xs) w h e = get_elem?-take n m i xs w (omega arith) e

-- Room for an id below 2^31: the table holds it, and all that it held.
make_room-fits :
    (id : ℕ) (table : List (Option ℕ)) → id < 2 ^ 31 → 1 ≤ id → id < length (make_room id table)
make_room-fits id table h positive = elim (Bool-cases (leb (length table) id)) [
  | inl t ↦ rw t (omega (arith, length-resize (id * 2 % 2 ^ 32) table))
  | inr t ↦ rw t (grind (arith, t))
]

make_room-same :
    (id i : ℕ) (table : List (Option ℕ)) (w : Option ℕ)
    → id < 2 ^ 31
    → get_elem? table i ≡ some w
    → get_elem? (make_room id table) i ≡ some w
make_room-same id i table w h e = elim (Bool-cases (leb (length table) id)) [
  | inl t ↦ rw t (get_elem?-take (id * 2 % 2 ^ 32) _ i table w (grind (arith, t)) e)
  | inr t ↦ rw t e
]

-- In a valid factory whose next id is below 2^31 a new object gets that id, which is larger than every id
-- in the table; then a lookup of the id finds the new object's address, lookups of all other ids
-- find what they found, and the next id is one larger.
take_id_fresh :
    (f : ObjectFactory) (to_hearer : Bool)
    → IsValid f
    → f.next_id < 2 ^ 31
    → (g : ObjectFactory) × (take_id to_hearer f ≡ some g)
      × (g.next_id ≡ f.next_id + 1)
      × ((i a : ℕ) → Entry f.objects_table i a → i < f.next_id)
      × (get_from_id_table f.next_id g ≡ some (some (length f.heap)))
      × ((i : ℕ) (w : Option ℕ)
          → i ≢ f.next_id
          → get_from_id_table i f ≡ some w
          → get_from_id_table i g ≡ some w)
unfolding take_id put get_from_id_table
take_id_fresh f to_hearer valid h =
    let fits = make_room-fits f.next_id f.objects_table h valid.ids_positive in
    (
      with_object f.next_id to_hearer ((f.next_id + 1) % 2 ^ 32) f,
      rw (lt→ltb _ _ fits) refl,
      omega arith,
      valid.listed_below,
      get_elem?-set_self (make_room f.next_id f.objects_table) f.next_id (some (length f.heap))
          fits,
      λ i w ne e.
          get_elem?-set_ne (make_room f.next_id f.objects_table) f.next_id i _
            (λ same. ne (sym same))
          ∙ make_room-same f.next_id i f.objects_table w h e,
    )

abbrev deleted : ℕ → Option ℕ → ObjectFactory → ObjectFactory
deleted id entry f = record f {
  ids_to_delete = f.ids_to_delete ++ (entry ∷ []);
  objects_table = set f.objects_table id none;
}

-- DeleteLater takes exactly one id out of the table: a lookup of the id then finds nothing, lookups of
-- all other ids find what they found.
pub delete_later_forgets :
    (f : ObjectFactory) (id : ℕ) (entry : Option ℕ)
    → get_from_id_table id f ≡ some entry
    → (g : ObjectFactory) × (delete_later id f ≡ some g)
      × (g.ids_to_delete ≡ f.ids_to_delete ++ (entry ∷ []))
      × (get_from_id_table id g ≡ some none)
      × ((i : ℕ) → i ≢ id → get_from_id_table i g ≡ get_from_id_table i f)
unfolding delete_later get_from_id_table
delete_later_forgets f id entry found = (
  deleted id entry f,
  grind (arith, found),
  refl,
  get_elem?-set_self f.objects_table id none (get_elem?-lt f.objects_table id entry found),
  λ i ne. get_elem?-set_ne f.objects_table id i none (λ same. ne (sym same)),
)
