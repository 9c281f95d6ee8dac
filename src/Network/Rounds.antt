-- ===== src/Network/Rounds.antt =====
-- One round of handleNewData: what HandleHeader and HandleBody do, and that more bytes behind do not
-- change it.
use griefly.Prelude.{
  ℕ, suc, ◌+◌, ◌*◌, ◌≤◌, ◌<◌, ◌≡◌, ◌⊎◌, inl, inr, refl, ap, ◌∙◌, arith, Bool-cases, true, false,
  ltb, ltb→lt, lt→ltb, List, length, drop, length-drop, take-append, drop-append, length-append,
}
use griefly.Prelude.Int.{ℤ, pos, negsuc}
use griefly.Network.{
  Parser, Progress, ReadingState, header, body, waits, goes_on, goes_back, take_negative,
  read_header, handle_header, take_body, handle_body, handle, append,
}

pub at_least : (a b : ℕ) → ltb a b ≡ false → b ≤ a
at_least a b h = ground arith

le→ltb : (a b : ℕ) → b ≤ a → ltb a b ≡ false
le→ltb a b h = ground arith

pub state_cases : (s : ReadingState) → (s ≡ header) ⊎ (s ≡ body)
state_cases header = inl refl
state_cases body = inr refl

module _ {D : Type 0} where
  -- How many rounds a state is good for, at most.
  abbrev pub work : Parser D → ℕ
  work p = elim p.reading_state [ header ↦ 2 * length p.unread | body ↦ 2 * length p.unread + 1 ]

  read_header-append :
      (p : Parser D) (more : List ℕ)
      → 8 ≤ length p.unread
      → read_header (append more p) ≡ append more (read_header p)
  unfolding read_header
  read_header-append p more h =
      let rest = drop-append 4 p.unread more (omega arith) in
      let rest_length = length-drop 4 p.unread in
      rw
        (
          take-append 4 p.unread more (omega arith),
          rest,
          take-append 4 (drop 4 p.unread) more (omega arith),
          drop-append 8 p.unread more h,
        )
        refl

  -- A round that does something does the same when there are more bytes behind, and brings the end
  -- nearer.
  abbrev pub GoesOn : (Parser D → Progress D) → Parser D → Type 0
  GoesOn step p =
      (q : Parser D) × (step p ≡ goes_on q)
      × (work q < work p)
      × ((more : List ℕ) → step (append more p) ≡ goes_on (append more q))

  -- A round that goes back does so when there are more bytes behind.
  abbrev pub GoesBack : (Parser D → Progress D) → Parser D → Type 0
  GoesBack step p = (n : ℕ) × (q : Parser D) × (step p ≡ goes_back n q)

  abbrev pub Returns : (Parser D → Progress D) → Parser D → Type 0
  Returns step p = GoesBack step p × ((more : List ℕ) → GoesBack step (append more p))

  abbrev pub Cases : (Parser D → Progress D) → Parser D → Type 0
  Cases step p = (step p ≡ waits) ⊎ GoesOn step p ⊎ Returns step p

  pub handle_header-few : (p : Parser D) → ltb (length p.unread) 8 ≡ true → handle_header p ≡ waits
  unfolding handle_header
  handle_header-few p h = rw h refl

  pub handle_header-enough :
      (p : Parser D) → 8 ≤ length p.unread → handle_header p ≡ goes_on (read_header p)
  unfolding handle_header
  handle_header-enough p h = ground (arith)

  work-read_header :
      (p : Parser D)
      → p.reading_state ≡ header
      → 8 ≤ length p.unread
      → work (read_header p) < work p
  unfolding read_header
  work-read_header p s h = rw s (omega (arith, length-drop 8 p.unread))

  handle_header-Cases : (p : Parser D) → p.reading_state ≡ header → Cases handle_header p
  handle_header-Cases p s = elim (Bool-cases (ltb (length p.unread) 8)) [
    | inl few ↦ inl (handle_header-few p few)
    | inr enough ↦
        let h = at_least (length p.unread) 8 enough in
        let longer = λ (more : List ℕ). length-append p.unread more in
        inr (
          inl (
            read_header p,
            handle_header-enough p h,
            work-read_header p s h,
            λ more.
                handle_header-enough (append more p) (omega (arith, h, longer more))
                ∙ ap goes_on (read_header-append p more h),
          ))
  ]

module _ {D : Type 0} (from_json : List ℕ → D) where
  take_body-append :
      (n : ℕ) (p : Parser D) (more : List ℕ)
      → n ≤ length p.unread
      → take_body from_json n (append more p) ≡ append more (take_body from_json n p)
  unfolding take_body
  take_body-append n p more h =
      rw (take-append n p.unread more h, drop-append n p.unread more h) refl

  work-take_body :
      (n : ℕ) (p : Parser D) → p.reading_state ≡ body → work (take_body from_json n p) < work p
  unfolding take_body
  work-take_body n p s = rw s (omega (arith, length-drop n p.unread))

  pub handle_body-few :
      (n : ℕ) (p : Parser D)
      → p.message_size ≡ pos n
      → length p.unread < n
      → handle_body from_json p ≡ waits
  unfolding handle_body
  handle_body-few n p e h = rw (e, lt→ltb (length p.unread) n h) refl

  pub handle_body-enough :
      (n : ℕ) (p : Parser D)
      → p.message_size ≡ pos n
      → n ≤ length p.unread
      → handle_body from_json p ≡ goes_on (take_body from_json n p)
  unfolding handle_body
  handle_body-enough n p e h = rw (e, le→ltb (length p.unread) n h) refl

  handle_body-negative :
      (n : ℕ) (p : Parser D)
      → p.message_size ≡ negsuc n
      → handle_body from_json p ≡ goes_back (suc n) (take_negative from_json p)
  unfolding handle_body
  handle_body-negative n p e = rw e refl

  pub ℤ-cases : (a : ℤ) → ((n : ℕ) × (a ≡ pos n)) ⊎ ((n : ℕ) × (a ≡ negsuc n))
  ℤ-cases (pos n) = inl (n, refl)
  ℤ-cases (negsuc n) = inr (n, refl)

  handle_body-Cases : (p : Parser D) → p.reading_state ≡ body → Cases (handle_body from_json) p
  handle_body-Cases p s = elim (ℤ-cases p.message_size) [
    | inr (n, e) ↦ inr (
        inr (
          (suc n, take_negative from_json p, handle_body-negative n p e),
          λ more. (
            suc n,
            take_negative from_json (append more p),
            handle_body-negative n (append more p) e,
          ),
        ))
    | inl (n, e) ↦ elim (Bool-cases (ltb (length p.unread) n)) [
      | inl few ↦ inl (handle_body-few n p e (ltb→lt (length p.unread) n few))
      | inr enough ↦
          let h = at_least (length p.unread) n enough in
          let longer = λ (more : List ℕ). length-append p.unread more in
          inr (
            inl (
              take_body from_json n p,
              handle_body-enough n p e h,
              work-take_body n p s,
              λ more.
                  handle_body-enough n (append more p) e (omega (arith, h, longer more))
                  ∙ ap goes_on (take_body-append n p more h),
            ))
    ]
  ]

  pub handle-header :
      (p : Parser D) → p.reading_state ≡ header → handle from_json p ≡ handle_header p
  unfolding handle
  handle-header p s = rw s refl

  pub handle-body :
      (p : Parser D) → p.reading_state ≡ body → handle from_json p ≡ handle_body from_json p
  unfolding handle
  handle-body p s = rw s refl

  -- What holds of a step holds of one that agrees with it.
  Cases-transfer :
      (f g : Parser D → Progress D) (p : Parser D)
      → g p ≡ f p
      → ((more : List ℕ) → g (append more p) ≡ f (append more p))
      → Cases f p
      → Cases g p
  Cases-transfer f g p same later (inl w) = inl (same ∙ w)
  Cases-transfer f g p same later (inr (inl (q, e, less, onward))) =
      inr (inl (q, same ∙ e, less, λ more. later more ∙ onward more))
  Cases-transfer f g p same later (inr (inr ((n, q, e), onward))) = inr (
      inr ((n, q, same ∙ e), λ more. let (m, r, found) = onward more in (m, r, later more ∙ found)))

  pub handle-Cases : (p : Parser D) → Cases (handle from_json) p
  handle-Cases p = elim (state_cases p.reading_state) [
    | inl s ↦
        Cases-transfer handle_header (handle from_json) p (handle-header p s)
          (λ more. handle-header (append more p) s) (handle_header-Cases p s)
    | inr s ↦
        Cases-transfer (handle_body from_json) (handle from_json) p (handle-body p s)
          (λ more. handle-body (append more p) s) (handle_body-Cases p s)
  ]
