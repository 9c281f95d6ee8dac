-- ===== src/Objects/Validity.antt =====
-- A valid table: its entries are living objects under their own ids, and what waits for deletion is
-- deleted once.
use griefly.Prelude.{
  ℕ, zero, suc, ◌+◌, ◌*◌, ◌-◌, ◌%◌, ◌^◌, ◌≤◌, ◌<◌, ◌≡◌, inl, inr, ◌∙◌, arith, Bool-cases, true, leb,
  Option, none, some, List, [], ◌∷◌, ◌++◌, length, take, replicate, get_elem?,
}
use griefly.Prelude.{length-append, length-replicate}
use griefly.Objects.{Object, ObjectFactory, make_room, resize}

pub empty_entry : (n i a : ℕ) → ¬ (get_elem? (replicate n none) i ≡ some (some a))
empty_entry zero i a e = absurd (grind (arith, e))
empty_entry (suc n) zero a e = absurd (grind (arith, e))
empty_entry (suc n) (suc i) a e = empty_entry n i a e

kept_entry :
    (n m i a : ℕ) (xs : List (Option ℕ))
    → get_elem? (take n xs ++ replicate m none) i ≡ some (some a)
    → get_elem? xs i ≡ some (some a)
kept_entry zero m i a xs e = absurd (empty_entry m i a e)
kept_entry (suc n) m i a [] e = absurd (empty_entry m i a e)
kept_entry (suc n) m zero a (x ∷ xs) e = e
kept_entry (suc n) m (suc i) a (x ∷ xs) e = kept_entry n m i a xs e

length-take : (n : ℕ) (xs : List (Option ℕ)) → length (take n xs) + (n - length xs) ≡ n
length-take zero xs = omega arith
length-take (suc n) [] = omega arith
length-take (suc n) (x ∷ xs) = omega (arith, length-take n xs)

pub length-resize : (n : ℕ) (xs : List (Option ℕ)) → length (resize n xs) ≡ n
length-resize n xs =
    length-append (take n xs) (replicate (n - length xs) none)
    ∙ omega (arith, length-take n xs, length-replicate {A = Option ℕ} (n - length xs) none)

pub make_room_kept :
    (id i a : ℕ) (table : List (Option ℕ))
    → get_elem? (make_room id table) i ≡ some (some a)
    → get_elem? table i ≡ some (some a)
make_room_kept id i a table e = elim (Bool-cases (leb (length table) id)) [
  | inl t ↦ kept_entry (id * 2 % 2 ^ 32) _ i a table (rw t at e)
  | inr t ↦ rw t at e
]

pub make_room-lt :
    (id : ℕ) (table : List (Option ℕ))
    → length table < 2 ^ 32
    → length (make_room id table) < 2 ^ 32
make_room-lt id table h = elim (Bool-cases (leb (length table) id)) [
  | inl t ↦ rw t (omega (arith, length-resize (id * 2 % 2 ^ 32) table))
  | inr t ↦ rw t h
]

-- An entry of the table, or of the queue, that is not null.
abbrev pub Entry : List (Option ℕ) → ℕ → ℕ → Type 0
Entry entries i a = get_elem? entries i ≡ some (some a)

-- An object that is not deleted.
abbrev pub Living : List Object → ℕ → ℕ → Type 0
Living heap id a = (o : Object) × (get_elem? heap a ≡ some o) × (o.id ≡ id) × (o.is_alive ≡ true)

pub record IsValid (f : ObjectFactory) : Type 0 where
  pub listed_lives : (i a : ℕ) → Entry f.objects_table i a → Living f.heap i a
  pub listed_below : (i a : ℕ) → Entry f.objects_table i a → i < f.next_id
  pub waiting_lives : (k a : ℕ) → Entry f.ids_to_delete k a → (id : ℕ) × Living f.heap id a
  pub waiting_once : (k l a : ℕ) → Entry f.ids_to_delete k a → Entry f.ids_to_delete l a → k ≡ l
  pub waiting_unlisted : (k i a : ℕ) → Entry f.ids_to_delete k a → ¬ Entry f.objects_table i a
  pub ids_positive : 1 ≤ f.next_id
  pub table_small : length f.objects_table < 2 ^ 32
