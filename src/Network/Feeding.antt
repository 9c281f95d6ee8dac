-- ===== src/Network/Feeding.antt =====
-- The loop of handleNewData ends, or arrives at a body of a negative size.
use griefly.Prelude.{ℕ, zero, suc, ◌<◌, ◌≡◌, ◌⊎◌, inl, inr, ◌∙◌, arith, List, ◌++◌, length}
use griefly.Prelude.{Bool-cases, ltb, ltb→lt, sym}
use griefly.Prelude.Int.{pos, negsuc}
use griefly.Network.{
  Parser, header, body, goes_on, waits, paused, handle, drain, append, rounds, feed,
}
use griefly.Network.Rounds.{
  work, handle-Cases, GoesBack, at_least, state_cases, ℤ-cases, handle-header, handle-body,
  handle_header-few, handle_header-enough, handle_body-few, handle_body-enough,
}
use griefly.Network.Forward.{forward, forward-waits, forward-goes_on, work-le}

module _ {D : Type 0} (from_json : List ℕ → D) where
  pub drain-waits :
      (whole : List ℕ) (n : ℕ) (p : Parser D)
      → handle from_json p ≡ waits
      → drain from_json whole (suc n) p ≡ paused p
  unfolding drain
  drain-waits whole n p e = grind (arith, e)

  pub drain-goes_on :
      (whole : List ℕ) (n : ℕ) (p q : Parser D)
      → handle from_json p ≡ goes_on q
      → drain from_json whole (suc n) p ≡ drain from_json whole n q
  unfolding drain
  drain-goes_on whole n p q e = grind (arith, e)

  -- The states that rounds lead to which go on.
  pub data Leads : Parser D → Parser D → Type 0 where
    here : {p : Parser D} → Leads p p
    onward : {p q r : Parser D} → handle from_json p ≡ goes_on q → Leads q r → Leads p r

  -- A body is to be read next, and its size is negative.
  abbrev pub HasNegativeSize : Parser D → Type 0
  HasNegativeSize q = (q.reading_state ≡ body) × (k : ℕ) × (q.message_size ≡ negsuc k)

  header_stays : (q : Parser D) → q.reading_state ≡ header → ¬ GoesBack (handle from_json) q
  header_stays q s (n, r, e) = elim (Bool-cases (ltb (length q.unread) 8)) [
    | inl few ↦
        let first = sym (handle-header from_json q s ∙ handle_header-few q few) ∙ e in
        absurd (grind (arith, first))
    | inr many ↦
        let first =
          sym (
            handle-header from_json q s
            ∙ handle_header-enough q (at_least (length q.unread) 8 many))
          ∙ e in
        absurd (grind (arith, first))
  ]

  body_stays :
      (q : Parser D) (k : ℕ)
      → q.reading_state ≡ body
      → q.message_size ≡ pos k
      → ¬ GoesBack (handle from_json) q
  body_stays q k s size (n, r, e) = elim (Bool-cases (ltb (length q.unread) k)) [
    | inl few ↦
        let first =
          sym (
            handle-body from_json q s
            ∙ handle_body-few from_json k q size (ltb→lt (length q.unread) k few))
          ∙ e in
        absurd (grind (arith, first))
    | inr many ↦
        let first =
          sym (
            handle-body from_json q s
            ∙ handle_body-enough from_json k q size (at_least (length q.unread) k many))
          ∙ e in
        absurd (grind (arith, first))
  ]

  -- Only a body of a negative size moves the position back.
  GoesBack-HasNegativeSize : (q : Parser D) → GoesBack (handle from_json) q → HasNegativeSize q
  GoesBack-HasNegativeSize q back = elim (state_cases q.reading_state) [
    | inl s ↦ absurd (header_stays q s back)
    | inr s ↦ elim (ℤ-cases from_json q.message_size) [
      | inl (k, size) ↦ absurd (body_stays q k s size back)
      | inr (k, size) ↦ (s, k, size)
    ]
  ]

  -- Rounds that go on lead to a body of a negative size.
  abbrev pub ComesBack : Parser D → Type 0
  ComesBack p = (q : Parser D) × Leads p q × HasNegativeSize q

  pub Waits : List ℕ → ℕ → Parser D → Type 0
  Waits whole n p =
      (q : Parser D) × (drain from_json whole n p ≡ paused q)
      × (forward from_json n p ≡ paused q)
      × (handle from_json q ≡ waits)

  drain_ends : (whole : List ℕ) (n : ℕ) (p : Parser D) → work p < n → Waits whole n p ⊎ ComesBack p
  unfolding Waits
  drain_ends whole zero p h = absurd (omega arith)
  drain_ends whole (suc n) p h = elim (handle-Cases from_json p) [
    | inl w ↦ inl (p, drain-waits whole n p w, forward-waits from_json n p w, w)
    | inr (inl (q, e, less, later)) ↦ elim (drain_ends whole n q (omega (arith, less))) [
      | inl (r, found, same, w) ↦
          inl (r, drain-goes_on whole n p q e ∙ found, forward-goes_on from_json n p q e ∙ same, w)
      | inr (r, path, back) ↦ inr (r, onward e path, back)
    ]
    | inr (inr (back, later)) ↦ inr (p, here, GoesBack-HasNegativeSize p back)
  ]

  rounds-enough : (whole : List ℕ) (p : Parser D) → work p < rounds whole p
  rounds-enough whole p = omega (arith, work-le from_json p)

  -- On every state and all data the loop of handleNewData either comes to an end, within the rounds that
  -- `rounds` counts and in a state that needs more bytes, or arrives, over rounds that go on, at a body
  -- of a negative size.
  pub feed_ends :
      (buffer new_data : List ℕ) (p : Parser D)
      → ((q : Parser D) × (feed from_json buffer new_data p ≡ paused q)
          × (handle from_json q ≡ waits))
        ⊎ ComesBack (append new_data p)
  unfolding feed Waits
  feed_ends buffer new_data p =
      let q = append new_data p in
      let whole = buffer ++ new_data in
      elim (drain_ends whole (rounds whole q) q (rounds-enough whole q)) [
        | inl (r, found, same, w) ↦ inl (r, found, w)
        | inr back ↦ inr back
      ]
