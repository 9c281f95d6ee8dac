-- ===== src/Objects/Histories.antt =====
-- The table after any history, and the ids that it gives out.
use griefly.Prelude.{
  ℕ, zero, suc, ◌+◌, ◌-◌, ◌≡◌, inl, inr, refl, sym, ◌∙◌, arith, Bool, Bool-cases, true, false,
  Option, none, some, List, [], ◌∷◌, ◌++◌, length, get_elem?, Option-cases, subst,
}
use griefly.Objects.{
  ◌>>=◌, ObjectFactory, new_factory, create_void, hear, is_valid, place_in_owner, announce,
  create_impl, finish_from, finish_world_creation, begin_world_creation, delete_later,
  process_deletion,
}
use griefly.Objects.Validity.{IsValid}
use griefly.Objects.Operations.{
  take_id-IsValid, delete_later-IsValid, create_void-IsValid, new_factory-IsValid,
}
use griefly.Objects.Deletion.{process_deletion_frees}

pub data Event : Type 0 where
  creates : Bool → ℕ → Event
  loads : Bool → ℕ → Event
  deletes : ℕ → Event
  sweeps : Event
  begins_world : Event
  finishes_world : Event

-- An outcome that, if there is one, is valid.
abbrev pub ValidIfAny : Option ObjectFactory → Type 0
ValidIfAny o = (g : ObjectFactory) → o ≡ some g → IsValid g

bind_some :
    {A B : Type 0} (o : Option A) (next : A → Option B) (b : B)
    → (o >>= next) ≡ some b
    → (a : A) × (o ≡ some a) × (next a ≡ some b)
bind_some none next b e = absurd (grind (arith, e))
bind_some (some a) next b e = (a, refl, e)

ValidIfAny-bind :
    (o : Option ObjectFactory) (next : ObjectFactory → Option ObjectFactory)
    → ValidIfAny o
    → ((f : ObjectFactory) → IsValid f → ValidIfAny (next f))
    → ValidIfAny (o >>= next)
ValidIfAny-bind o next ho h g e =
    let (f, found, onward) = bind_some o next g e in h f (ho f found) g onward

pub ValidIfAny-some : (f : ObjectFactory) → IsValid f → ValidIfAny (some f)
ValidIfAny-some f valid g e = let same : f ≡ g = grind (arith, e) in subst IsValid same valid

-- Changes of fields that validity does not read.
abbrev flagged : ObjectFactory → Bool → List ℕ → ObjectFactory
flagged f generating hearers = record f { is_world_generating = generating; hearers = hearers }

flagged-IsValid :
    (f : ObjectFactory) (generating : Bool) (hearers : List ℕ)
    → IsValid f
    → IsValid (flagged f generating hearers)
flagged-IsValid f generating hearers valid = record {
  listed_lives = valid.listed_lives;
  listed_below = valid.listed_below;
  waiting_lives = valid.waiting_lives;
  waiting_once = valid.waiting_once;
  waiting_unlisted = valid.waiting_unlisted;
  ids_positive = valid.ids_positive;
  table_small = valid.table_small;
}

hear-IsValid :
    (to_hearer : Bool) (id : ℕ) (f : ObjectFactory) → IsValid f → IsValid (hear to_hearer id f)
hear-IsValid true id f valid =
    flagged-IsValid f f.is_world_generating (f.hearers ++ (id ∷ [])) valid
hear-IsValid false id f valid = valid

module _ (place : ℕ → ℕ → ObjectFactory → Option ObjectFactory)
    (after_world_creation : ℕ → ObjectFactory → Option ObjectFactory) where
  unfoldable pub step : Event → ObjectFactory → Option ObjectFactory
  step (creates to_hearer owner) f =
      create_impl place after_world_creation to_hearer owner f >>= λ made. some made.1
  step (loads to_hearer id) f = create_void to_hearer id f
  step (deletes id) f = delete_later id f
  step sweeps f = process_deletion f
  step begins_world f = some (begin_world_creation f)
  step finishes_world f = finish_world_creation place after_world_creation f

  unfoldable pub run : List Event → ObjectFactory → Option ObjectFactory
  run [] f = some f
  run (e ∷ events) f = step e f >>= run events

  module _
      (place_keeps : (owner id : ℕ) (f : ObjectFactory) → IsValid f → ValidIfAny (place owner id f))
      (after_keeps : (id : ℕ) (f : ObjectFactory)
        → IsValid f
        → ValidIfAny (after_world_creation id f)) where
    place_in_owner-ValidIfAny :
        (owner id : ℕ) (f : ObjectFactory)
        → IsValid f
        → ValidIfAny (place_in_owner place after_world_creation owner id f)
    unfolding place_in_owner
    place_in_owner-ValidIfAny owner id f valid g e = elim (Option-cases (is_valid owner f)) [
      | inl n ↦ absurd (grind (arith, e, n))
      | inr (true, s) ↦ place_keeps owner id f valid g (grind (arith, e, s))
      | inr (false, s) ↦ ValidIfAny-some f valid g (grind (arith, e, s))
    ]

    announce-ValidIfAny :
        (to_hearer : Bool) (id : ℕ) (f : ObjectFactory)
        → IsValid f
        → ValidIfAny (announce place after_world_creation to_hearer id f)
    unfolding announce
    announce-ValidIfAny to_hearer id f valid g e =
        let heard = hear-IsValid to_hearer id f valid in
        elim (Bool-cases (hear to_hearer id f).is_world_generating) [
          | inl t ↦ ValidIfAny-some _ heard g (sym (rw t refl) ∙ e)
          | inr t ↦ after_keeps id _ heard g (sym (rw t refl) ∙ e)
        ]

    create_impl-ValidIfAny :
        (to_hearer : Bool) (owner : ℕ) (f : ObjectFactory)
        → IsValid f
        → ValidIfAny (step (creates to_hearer owner) f)
    unfolding step create_impl
    create_impl-ValidIfAny to_hearer owner f valid g e =
        let (made, made_eq, last) = bind_some _ _ g e in
        let (taken, taken_eq, more) = bind_some _ _ made made_eq in
        let (placed, placed_eq, end) = bind_some _ _ made more in
        let (announced, announced_eq, pair) = bind_some _ _ made end in
        let taken_valid = take_id-IsValid to_hearer f taken valid taken_eq in
        let placed_valid =
          place_in_owner-ValidIfAny owner f.next_id taken taken_valid placed placed_eq in
        let same : announced ≡ g = grind (arith, pair, last) in
        subst IsValid same
          (announce-ValidIfAny to_hearer f.next_id placed placed_valid announced announced_eq)

    finish_from-ValidIfAny :
        (n i : ℕ) (f : ObjectFactory)
        → IsValid f
        → ValidIfAny (finish_from place after_world_creation n i f)
    unfolding finish_from
    finish_from-ValidIfAny zero i f valid g e = ValidIfAny-some f valid g e
    finish_from-ValidIfAny (suc n) i f valid g e =
        elim (Option-cases (get_elem? f.objects_table i)) [
          | inl outside ↦ absurd (grind (arith, e, outside))
          | inr (none, found) ↦ finish_from-ValidIfAny n (i + 1) f valid g (grind (arith, e, found))
          | inr (some a, found) ↦
              ValidIfAny-bind (after_world_creation i f)
                (finish_from place after_world_creation n (i + 1)) (after_keeps i f valid)
                (λ h h_valid. finish_from-ValidIfAny n (i + 1) h h_valid) g
                (grind (arith, e, found))
        ]

    step-ValidIfAny : (e : Event) (f : ObjectFactory) → IsValid f → ValidIfAny (step e f)
    unfolding step finish_world_creation
    step-ValidIfAny (creates to_hearer owner) f valid g e =
        create_impl-ValidIfAny to_hearer owner f valid g e
    step-ValidIfAny (loads to_hearer id) f valid g e = create_void-IsValid to_hearer id f g valid e
    step-ValidIfAny (deletes id) f valid g e = delete_later-IsValid id f g valid e
    step-ValidIfAny sweeps f valid g e =
        let (h, swept, h_valid, empty, gone, kept) = process_deletion_frees f valid in
        let same : h ≡ g = grind (arith, swept, e) in subst IsValid same h_valid
    step-ValidIfAny begins_world f valid g e =
        ValidIfAny-some _ (flagged-IsValid f true f.hearers valid) g e
    step-ValidIfAny finishes_world f valid g e =
        finish_from-ValidIfAny (length f.objects_table - 1) 1 _
          (flagged-IsValid f false f.hearers valid) g e

    run-ValidIfAny :
        (events : List Event) (f : ObjectFactory) → IsValid f → ValidIfAny (run events f)
    unfolding run
    run-ValidIfAny [] f valid = ValidIfAny-some f valid
    run-ValidIfAny (e ∷ events) f valid =
        ValidIfAny-bind (step e f) (run events) (step-ValidIfAny e f valid) (run-ValidIfAny events)

    -- After any history from a new factory that comes through, of creations, loads, deletions, sweeps and
    -- the begin and the end of a world's creation, in which the owners and AfterWorldCreation keep a factory
    -- valid, the factory is valid: every entry of the table is a living object under its own id, which
    -- is below the next one, and what waits for deletion is alive, waits once, and stands no longer in
    -- the table.
    pub run-new-ValidIfAny :
        (events : List Event) (g : ObjectFactory) → run events new_factory ≡ some g → IsValid g
    run-new-ValidIfAny events = run-ValidIfAny events new_factory new_factory-IsValid
