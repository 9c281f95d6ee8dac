-- ===== src/Objects/Deletion.antt =====
-- ProcessDeletion deletes each waiting object once.
use griefly.Prelude.{
  ℕ, zero, suc, ◌≡◌, refl, sym, ap, ◌∙◌, arith, true, false, Option, none, some, List, [], ◌∷◌,
  get_elem?, set, get_elem?-lt, get_elem?-set_self, get_elem?-set_ne, subst, ◌≢◌,
}
use griefly.Objects.{◌>>=◌, Object, ObjectFactory, delete, delete_all, process_deletion}
use griefly.Objects.Validity.{Entry, Living, IsValid}

-- A deleted object, at its address.
abbrev pub Dead : List Object → ℕ → Type 0
Dead heap a = (o : Object) × (get_elem? heap a ≡ some o) × (o.is_alive ≡ false)

abbrev Unlisted : List (Option ℕ) → ℕ → Type 0
Unlisted entries a = (k : ℕ) → ¬ Entry entries k a

abbrev Deletes : List (Option ℕ) → List Object → List Object → Type 0
Deletes entries heap rest =
    ((a : ℕ) (o : Object)
      → get_elem? heap a ≡ some o
      → Unlisted entries a
      → get_elem? rest a ≡ some o)
    × ((k a : ℕ) → Entry entries k a → Dead rest a)

abbrev dead : Object → Object
dead o = record o { is_alive = false }

delete_living :
    (heap : List Object) (a : ℕ) (o : Object)
    → get_elem? heap a ≡ some o
    → o.is_alive ≡ true
    → delete (some a) heap ≡ some (set heap a (dead o))
unfolding delete
delete_living heap a o found alive = grind (arith, found, alive)

-- Different addresses wait, and all their objects live.
abbrev CanDelete : List (Option ℕ) → List Object → Type 0
CanDelete entries heap =
    ((k a : ℕ) → Entry entries k a → (id : ℕ) × Living heap id a)
    × ((k l a : ℕ) → Entry entries k a → Entry entries l a → k ≡ l)

module _ (heap : List Object) (a : ℕ) (entries : List (Option ℕ))
    (able : CanDelete (some a ∷ entries) heap) where
  other_address : (k b : ℕ) → Entry entries k b → a ≢ b
  other_address k b e same =
      absurd (grind (arith, able.1 (suc k) zero a (e ∙ ap (λ n. some (some n)) (sym same)) refl))

  CanDelete-rest : (o : Object) → CanDelete entries (set heap a (dead o))
  CanDelete-rest o = (
    λ k b e.
        let (id, (q, found, named, alive)) = able.0 (suc k) b e in
        (id, (q, get_elem?-set_ne heap a b (dead o) (other_address k b e) ∙ found, named, alive)),
    λ k l b e e'. grind (arith, able.1 (suc k) (suc l) b e e'),
  )

module _ (entries : List (Option ℕ)) (heap rest : List Object) where
  skip_null : Deletes entries heap rest → Deletes (none ∷ entries) heap rest
  skip_null (kept, gone) = (λ b q found free. kept b q found (λ k. free (suc k)), gone_null)
    where
      gone_null : (k b : ℕ) → Entry (none ∷ entries) k b → Dead rest b
      gone_null zero b e = absurd (grind (arith, e))
      gone_null (suc k) b e = gone k b e

  module _ (a : ℕ) (o : Object) (found : get_elem? heap a ≡ some o)
      (able : CanDelete (some a ∷ entries) heap) where
    delete_first : Deletes entries (set heap a (dead o)) rest → Deletes (some a ∷ entries) heap rest
    delete_first (kept, gone) = (
      λ b q q_found free.
          kept b q
            (get_elem?-set_ne heap a b (dead o) (λ same. free zero (ap (λ n. some (some n)) same))
              ∙ q_found)
            (λ k. free (suc k)),
      gone_now,
    )
      where
        gone_first : Dead rest a
        gone_first = (
          dead o,
          kept a (dead o) (get_elem?-set_self heap a (dead o) (get_elem?-lt heap a o found))
              (λ k e. other_address heap a entries able k a e refl),
          refl,
        )

        gone_now : (k b : ℕ) → Entry (some a ∷ entries) k b → Dead rest b
        gone_now zero b e = let same : a ≡ b = grind (arith, e) in subst (Dead rest) same gone_first
        gone_now (suc k) b e = gone k b e

pub delete_all_lem :
    (entries : List (Option ℕ)) (heap : List Object)
    → CanDelete entries heap
    → (rest : List Object) × (delete_all entries heap ≡ some rest) × Deletes entries heap rest
unfolding delete_all delete
delete_all_lem [] heap able =
    (heap, refl, (λ a o found free. found, λ k a e. absurd (grind (arith, e))))
delete_all_lem (none ∷ entries) heap able =
    let (rest, deleted, done) =
      delete_all_lem entries heap (
        (
          λ k a e. able.0 (suc k) a e,
          λ k l a e e'. grind (arith, able.1 (suc k) (suc l) a e e'),
        )) in
    (rest, deleted, skip_null entries heap rest done)
delete_all_lem (some a ∷ entries) heap able =
    let (id, (o, found, named, alive)) = able.0 zero a refl in
    let (rest, deleted, done) =
      delete_all_lem entries (set heap a (dead o)) (CanDelete-rest heap a entries able o) in
    (
      rest,
      ap (λ h. h >>= delete_all entries) (delete_living heap a o found alive) ∙ deleted,
      delete_first entries heap rest a o found able done,
    )

abbrev emptied : ObjectFactory → List Object → ObjectFactory
emptied f heap = record f { ids_to_delete = []; heap = heap }

module _ (f : ObjectFactory) (rest : List Object) (valid : IsValid f)
    (kept : (a : ℕ) (o : Object)
      → get_elem? f.heap a ≡ some o
      → Unlisted f.ids_to_delete a
      → get_elem? rest a ≡ some o) where
  listed_kept : (i a : ℕ) → Entry f.objects_table i a → get_elem? rest a ≡ get_elem? f.heap a
  listed_kept i a e =
      let (o, found, named, alive) = valid.listed_lives i a e in
      kept a o found (λ k waits. valid.waiting_unlisted k i a waits e) ∙ sym found

  emptied-IsValid : IsValid (emptied f rest)
  emptied-IsValid = record {
    listed_lives = λ i a e.
        let (o, found, named, alive) = valid.listed_lives i a e in
        (o, listed_kept i a e ∙ found, named, alive);
    listed_below = valid.listed_below;
    waiting_lives = λ k a e. absurd (grind (arith, e));
    waiting_once = λ k l a e e'. absurd (grind (arith, e));
    waiting_unlisted = λ k i a e e'. absurd (grind (arith, e));
    ids_positive = valid.ids_positive;
    table_small = valid.table_small;
  }

-- In a valid factory ProcessDeletion deletes no object twice and ends with an empty queue: the objects
-- that waited are dead, the objects in the table are what they were, and the factory is valid.
pub process_deletion_frees :
    (f : ObjectFactory)
    → IsValid f
    → (g : ObjectFactory) × (process_deletion f ≡ some g)
      × IsValid g
      × (g.ids_to_delete ≡ [])
      × ((k a : ℕ) → Entry f.ids_to_delete k a → Dead g.heap a)
      × ((i a : ℕ) → Entry f.objects_table i a → get_elem? g.heap a ≡ get_elem? f.heap a)
unfolding process_deletion
process_deletion_frees f valid =
    let (rest, deleted, (kept, gone)) =
      delete_all_lem f.ids_to_delete f.heap (valid.waiting_lives, valid.waiting_once) in
    (
      emptied f rest,
      ap (λ h. h >>= λ heap. some (emptied f heap)) deleted,
      emptied-IsValid f rest valid kept,
      refl,
      gone,
      λ i a e. listed_kept f rest valid kept i a e,
    )
