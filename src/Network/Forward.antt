-- ===== src/Network/Forward.antt =====
-- The loop of handleNewData as long as it does not go back: it ends, and goes on from where it paused.
use griefly.Prelude.{
  ℕ, zero, suc, ◌+◌, ◌*◌, ◌<◌, ◌≡◌, ◌⊎◌, inl, inr, sym, ap, ◌∙◌, arith, List, ◌++◌, length,
  length-append,
}
use griefly.Network.{
  Parser, Run, waits, goes_on, goes_back, paused, lost, out_of_fuel, handle, append,
}
use mathlib.Core.List.{append_assoc}
use griefly.Network.Rounds.{work, GoesBack, handle-Cases, state_cases}

-- Two rounds for every byte, and two more.
abbrev pub enough : {D : Type 0} → Parser D → ℕ
enough p = 2 + 2 * length p.unread

module _ {D : Type 0} (from_json : List ℕ → D) where
  -- The loop, which gives up where it would go back.
  unfoldable pub forward : ℕ → Parser D → Run D
  forward zero p = out_of_fuel
  forward (suc fuel) p = elim (handle from_json p) [
    | waits ↦ paused p
    | goes_on q ↦ forward fuel q
    | goes_back n q ↦ lost
  ]

  unfoldable pub feed_forward : List ℕ → Parser D → Run D
  feed_forward new_data p = let q = append new_data p in forward (enough q) q

  pub forward-waits :
      (n : ℕ) (p : Parser D) → handle from_json p ≡ waits → forward (suc n) p ≡ paused p
  unfolding forward
  forward-waits n p e = grind (arith, e)

  pub forward-goes_on :
      (n : ℕ) (p q : Parser D) → handle from_json p ≡ goes_on q → forward (suc n) p ≡ forward n q
  unfolding forward
  forward-goes_on n p q e = grind (arith, e)

  pub forward-back :
      (n : ℕ) (p : Parser D) → GoesBack (handle from_json) p → forward (suc n) p ≡ lost
  unfolding forward
  forward-back n p (k, q, e) = grind (arith, e)

  -- With enough enough the number of enough does not matter.
  pub forward_same : (m n : ℕ) (p : Parser D) → work p < m → work p < n → forward m p ≡ forward n p
  forward_same zero n p hm hn = absurd (omega arith)
  forward_same (suc m) zero p hm hn = absurd (omega arith)
  forward_same (suc m) (suc n) p hm hn = elim (handle-Cases from_json p) [
    | inl w ↦ forward-waits m p w ∙ sym (forward-waits n p w)
    | inr (inl (q, e, less, onward)) ↦
        forward-goes_on m p q e
        ∙ forward_same m n q (omega (arith, less)) (omega (arith, less))
        ∙ sym (forward-goes_on n p q e)
    | inr (inr (e, onward)) ↦ forward-back m p e ∙ sym (forward-back n p e)
  ]

  -- How a run goes on when there are more bytes: from where it paused, or not at all.
  abbrev pub continue : List ℕ → Run D → Run D
  continue more (paused q) = feed_forward more q
  continue more lost = lost
  continue more out_of_fuel = out_of_fuel

  pub work-le : (p : Parser D) → work p < enough p
  work-le p = elim (state_cases p.reading_state) [
    | inl s ↦ rw s (omega arith)
    | inr s ↦ rw s (omega arith)
  ]

  pub work-append : (p : Parser D) (more : List ℕ) → work (append more p) ≡ work p + 2 * length more
  work-append p more =
      let size = length-append p.unread more in
      elim (state_cases p.reading_state) [
        | inl s ↦ rw s (omega (arith, size))
        | inr s ↦ rw s (omega (arith, size))
      ]

  pub feed_forward_as :
      (n : ℕ) (p : Parser D) (more : List ℕ)
      → work (append more p) < n
      → feed_forward more p ≡ forward n (append more p)
  unfolding feed_forward
  feed_forward_as n p more h =
      forward_same (enough (append more p)) n (append more p) (work-le (append more p)) h

  pub forward-continue :
      (n : ℕ) (p : Parser D) (more : List ℕ)
      → work p < n
      → feed_forward more p ≡ continue more (forward n p)
  forward-continue zero p more h = absurd (omega arith)
  forward-continue (suc n) p more h =
      let wide = enough (append more p) in
      let step = feed_forward_as (suc wide) p more (omega (arith, work-le (append more p))) in
      elim (handle-Cases from_json p) [
        | inl w ↦ sym (ap (continue more) (forward-waits n p w))
        | inr (inl (q, e, less, onward)) ↦
            step
            ∙ forward-goes_on wide (append more p) (append more q) (onward more)
            ∙ sym (
                feed_forward_as wide q more (
                  omega
                    (arith, less, work-append p more, work-append q more, work-le (append more p))))
            ∙ forward-continue n q more (omega (arith, less))
            ∙ sym (ap (continue more) (forward-goes_on n p q e))
        | inr (inr (e, onward)) ↦
            step
            ∙ forward-back wide (append more p) (onward more)
            ∙ sym (ap (continue more) (forward-back n p e))
      ]

  -- The loop of handleNewData ends: with a state that waits for more bytes, or where it would go back.
  pub forward_ends :
      (n : ℕ) (p : Parser D)
      → work p < n
      → ((q : Parser D) × (forward n p ≡ paused q) × (handle from_json q ≡ waits))
        ⊎ (forward n p ≡ lost)
  forward_ends zero p h = absurd (omega arith)
  forward_ends (suc n) p h = elim (handle-Cases from_json p) [
    | inl w ↦ inl (p, forward-waits n p w, w)
    | inr (inl (q, e, less, onward)) ↦ elim (forward_ends n q (omega (arith, less))) [
      | inl (r, found, w) ↦ inl (r, forward-goes_on n p q e ∙ found, w)
      | inr gone ↦ inr (forward-goes_on n p q e ∙ gone)
    ]
    | inr (inr (e, onward)) ↦ inr (forward-back n p e)
  ]

  pub feed_forward_ends :
      (p : Parser D) (new_data : List ℕ)
      → ((q : Parser D) × (feed_forward new_data p ≡ paused q) × (handle from_json q ≡ waits))
        ⊎ (feed_forward new_data p ≡ lost)
  unfolding feed_forward
  feed_forward_ends p new_data = let q = append new_data p in forward_ends (enough q) q (work-le q)

  append-append : (p : Parser D) (a b : List ℕ) → append b (append a p) ≡ append (a ++ b) p
  append-append p a b = ap (λ u. record p { unread = u }) (append_assoc p.unread a b)

  -- Two pieces of data fed one after the other lead where both together lead.
  pub feed_forward-append :
      (p : Parser D) (a b : List ℕ) → feed_forward (a ++ b) p ≡ continue b (feed_forward a p)
  unfolding feed_forward
  feed_forward-append p a b =
      sym (ap (λ q. forward (enough q) q) (append-append p a b))
      ∙ forward-continue (enough (append a p)) (append a p) b (work-le (append a p))
