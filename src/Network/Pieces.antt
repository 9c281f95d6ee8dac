-- ===== src/Network/Pieces.antt =====
-- The messages do not depend on how the bytes are cut into pieces.
use griefly.Prelude.{
  ℕ, zero, suc, ◌≤◌, ◌≡◌, inl, inr, sym, ap, ◌∙◌, arith, Option, none, some, List, [], ◌∷◌, ◌++◌,
  append_empty,
}
use griefly.Network.{
  Parser, Run, SocketHandler, waits, paused, lost, out_of_fuel, handle, drain, append, rounds, kept,
  feed, handle_new_data, receive,
}
use griefly.Network.Rounds.{handle-Cases}
use griefly.Network.Forward.{
  enough, forward, feed_forward, forward-waits, forward-goes_on, forward-back, feed_forward_as,
  work-le, continue, feed_forward-append, feed_forward_ends,
}
use griefly.Network.Feeding.{drain-waits, drain-goes_on}

-- All pieces, one behind the other.
abbrev pub concat : List (List ℕ) → List ℕ
concat [] = []
concat (piece ∷ pieces) = piece ++ concat pieces

module _ {D : Type 0} where
  abbrev pub outcome : Run D → Option (Parser D)
  outcome (paused p) = some p
  outcome lost = none
  outcome out_of_fuel = none

  abbrev pub parser_of : Option (SocketHandler D) → Option (Parser D)
  parser_of none = none
  parser_of (some h) = some h.parser

module _ {D : Type 0} (from_json : List ℕ → D) where
  receive-some :
      (piece : List ℕ) (pieces : List (List ℕ)) (h g : SocketHandler D)
      → handle_new_data from_json piece h ≡ some g
      → receive from_json (piece ∷ pieces) h ≡ receive from_json pieces g
  unfolding receive
  receive-some piece pieces h g e = grind (arith, e)

  -- A run that does not go back is that of the loop, on any buffer.
  forward-drain :
      (whole : List ℕ) (n m : ℕ) (p q : Parser D)
      → n ≤ m
      → forward from_json n p ≡ paused q
      → drain from_json whole m p ≡ paused q
  unfolding forward
  forward-drain whole zero m p q h e = absurd (grind (arith, e))
  forward-drain whole (suc n) zero p q h e = absurd (omega arith)
  forward-drain whole (suc n) (suc m) p q h e = elim (handle-Cases from_json p) [
    | inl w ↦ drain-waits from_json whole m p w ∙ sym (forward-waits from_json n p w) ∙ e
    | inr (inl (r, on, less, later)) ↦
        drain-goes_on from_json whole m p r on
        ∙ forward-drain whole n m r q (omega arith) (sym (forward-goes_on from_json n p r on) ∙ e)
    | inr (inr (back, later)) ↦
        let gone = sym (forward-back from_json n p back) ∙ e in absurd (grind (arith, gone))
  ]

  pub feed_forward-feed :
      (buffer piece : List ℕ) (p q : Parser D)
      → feed_forward from_json piece p ≡ paused q
      → feed from_json buffer piece p ≡ paused q
  unfolding feed feed_forward
  feed_forward-feed buffer piece p q e =
      let r = append piece p in
      let whole = buffer ++ piece in
      forward-drain whole (enough r) (rounds whole r) r q (omega arith) e

  handle_new_data-paused :
      (piece : List ℕ) (h : SocketHandler D) (q : Parser D)
      → feed from_json h.buffer piece h.parser ≡ paused q
      → handle_new_data from_json piece h
        ≡ some (record { parser = q; buffer = kept (h.buffer ++ piece) q.unread })
  unfolding handle_new_data
  handle_new_data-paused piece h q e = grind (arith, e)

  feed_forward-empty :
      (p : Parser D) → handle from_json p ≡ waits → feed_forward from_json [] p ≡ paused p
  feed_forward-empty p w =
      let wide = enough (append [] p) in
      feed_forward_as from_json (suc wide) p [] (omega (arith, work-le from_json (append [] p)))
      ∙ ap (λ u. forward from_json (suc wide) (record p { unread = u })) (append_empty p.unread)
      ∙ forward-waits from_json wide p w

  -- The handler ends in the state in which all the bytes at once leave it.
  Agrees : List (List ℕ) → SocketHandler D → Type 0
  Agrees pieces h =
      (q : Parser D)
      → feed_forward from_json (concat pieces) h.parser ≡ paused q
      → parser_of (receive from_json pieces h) ≡ some q

  -- One piece, and then pieces for which it holds.
  Agrees-cons :
      (piece : List ℕ) (pieces : List (List ℕ)) (h : SocketHandler D)
      → ((q : Parser D) (buffer : List ℕ)
          → handle from_json q ≡ waits
          → Agrees pieces (record { parser = q; buffer = buffer }))
      → Agrees (piece ∷ pieces) h
  unfolding Agrees
  Agrees-cons piece pieces h rest q e =
      let whole = sym (feed_forward-append from_json h.parser piece (concat pieces)) ∙ e in
      elim (feed_forward_ends from_json h.parser piece) [
        | inr gone ↦
            let none_left = sym (ap (continue from_json (concat pieces)) gone) ∙ whole in
            absurd (grind (arith, none_left))
        | inl (r, found, w) ↦
            let kept_bytes = kept (h.buffer ++ piece) r.unread in
            ap parser_of (
              receive-some piece pieces h (record { parser = r; buffer = kept_bytes })
                (handle_new_data-paused piece h r
                  (feed_forward-feed h.buffer piece h.parser r found)))
            ∙ rest r kept_bytes w q (sym (ap (continue from_json (concat pieces)) found) ∙ whole)
      ]

  Agrees-waiting :
      (pieces : List (List ℕ)) (q : Parser D) (buffer : List ℕ)
      → handle from_json q ≡ waits
      → Agrees pieces (record { parser = q; buffer = buffer })
  unfolding Agrees receive
  Agrees-waiting [] q buffer w = λ r e. ap outcome (sym (feed_forward-empty q w) ∙ e)
  Agrees-waiting (piece ∷ pieces) q buffer w =
      Agrees-cons piece pieces (record { parser = q; buffer = buffer }) (Agrees-waiting pieces)

  -- However the bytes are cut into pieces, the handler ends in the state in which all of them at
  -- once leave it, when they lead to no body of a negative size.
  pub receive_pieces :
      (piece : List ℕ) (pieces : List (List ℕ)) (h : SocketHandler D) (q : Parser D)
      → feed_forward from_json (concat (piece ∷ pieces)) h.parser ≡ paused q
      → parser_of (receive from_json (piece ∷ pieces) h) ≡ some q
  unfolding Agrees
  receive_pieces piece pieces h q = Agrees-cons piece pieces h (Agrees-waiting pieces) q
