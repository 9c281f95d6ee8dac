-- ===== src/Network/Arrival.antt =====
-- What one side sends with sendMessage the handler of the other side emits, in order.
use griefly.Prelude.{
  ℕ, zero, suc, ◌+◌, ◌*◌, ◌^◌, ◌≤◌, ◌<◌, ◌≡◌, refl, sym, ap, ◌∙◌, arith, Bool, true, false, some,
  List, [], ◌∷◌, ◌++◌, length, take-length, drop-length, length-append, append_empty, All,
}
use griefly.Prelude.Int.{ℤ, pos}
use griefly.Serializer.{to_uint32, to_int32, u32_mod}
use griefly.Serializer.Numbers.{IsInt32, to_int32-to_uint32, to_uint32-lt}
use griefly.Network.{
  Parser, Message, Emitted, SocketHandler, header, body, goes_on, paused, from_big_endian,
  to_big_endian, read_header, take_body, append, emit, receive, start, send_message,
}
use griefly.Network.Rounds.{
  handle-header, handle-body, handle_header-few, handle_header-enough, handle_body-enough,
}
use griefly.Network.Forward.{enough, forward, feed_forward, forward-goes_on, forward-waits}
use griefly.Network.Pieces.{concat, parser_of, receive_pieces}
use mathlib.Core.List.{append_assoc}

from_to_big_endian : (w : ℕ) → w < u32_mod → from_big_endian 0 (to_big_endian w) ≡ w
unfolding from_big_endian to_big_endian
from_to_big_endian w h = omega arith

-- A number of four bytes is read back.
number : (a : ℤ) → IsInt32 a → to_int32 (from_big_endian 0 (to_big_endian (to_uint32 a))) ≡ a
number a h = rw (from_to_big_endian (to_uint32 a) (to_uint32-lt a)) (to_int32-to_uint32 a h)

four : (w : ℕ) → length (to_big_endian w) ≡ 4
unfolding to_big_endian
four w = refl

length-send :
    (type : ℤ) (json rest : List ℕ)
    → length (send_message type json ++ rest) ≡ 8 + length json + length rest
unfolding send_message to_big_endian
length-send type json rest = omega (arith, length-append json rest)

module _ {D : Type 0} (from_json : List ℕ → D) where
  -- The state after a message of a type and a text, with the bytes that follow it.
  abbrev after_message : ℤ → List ℕ → List ℕ → Parser D → Parser D
  after_message type json rest p = record {
    reading_state = header;
    message_size = pos (length json);
    message_type = type;
    unread = rest;
    is_first_message = false;
    emitted =
        p.emitted
        ++ (emit p.is_first_message (record { type = type; content = from_json json }) ∷ []);
  }

  abbrev in_body : ℤ → List ℕ → List ℕ → Parser D → Parser D
  in_body type json rest p = record p {
    reading_state = body;
    message_size = pos (length json);
    message_type = type;
    unread = json ++ rest;
  }

  read_header-send :
      (type : ℤ) (json rest : List ℕ) (p : Parser D)
      → IsInt32 type
      → length json < 2 ^ 31
      → p.unread ≡ send_message type json ++ rest
      → read_header p ≡ in_body type json rest p
  unfolding read_header send_message to_big_endian
  read_header-send type json rest p ht hj e =
      rw (e, number type ht, number (pos (length json)) (omega arith, omega arith)) refl

  take_body-send :
      (type : ℤ) (json rest : List ℕ) (p : Parser D)
      → take_body from_json (length json) (in_body type json rest p)
        ≡ after_message type json rest p
  unfolding take_body
  take_body-send type json rest p = rw (take-length json rest, drop-length json rest) refl

  -- The two rounds of a message.
  forward-send :
      (n : ℕ) (type : ℤ) (json rest : List ℕ) (p : Parser D)
      → IsInt32 type
      → length json < 2 ^ 31
      → p.reading_state ≡ header
      → p.unread ≡ send_message type json ++ rest
      → forward from_json (suc (suc n)) p ≡ forward from_json n (after_message type json rest p)
  forward-send n type json rest p ht hj s e =
      let long = length-send type json rest in
      let whole = ap length e in
      let within = length-append json rest in
      forward-goes_on from_json (suc n) p (in_body type json rest p) (
        handle-header from_json p s
        ∙ handle_header-enough p (omega (arith, long, whole))
        ∙ ap goes_on (read_header-send type json rest p ht hj e))
      ∙ forward-goes_on from_json n (in_body type json rest p) (after_message type json rest p) (
          handle-body from_json (in_body type json rest p) refl
          ∙ handle_body-enough from_json (length json) (in_body type json rest p) refl
              (omega (arith, within))
          ∙ ap goes_on (take_body-send type json rest p))

-- What the program uses of Qt's JSON: a text of a document is read as the document.
pub record Json (D : Type 0) : Type 0 where
  pub from_json : List ℕ → D
  pub to_json : D → List ℕ
  pub from_json-to_json : (d : D) → from_json (to_json d) ≡ d

module _ {D : Type 0} (json : Json D) where
  abbrev pub wire : List (Message D) → List ℕ
  wire [] = []
  wire (m ∷ ms) = send_message m.type (json.to_json m.content) ++ wire ms

  -- A type fits its four bytes, and a text the `int` that its size is.
  abbrev pub Fits : Message D → Type 0
  Fits m = IsInt32 m.type × (length (json.to_json m.content) < 2 ^ 31)

module _ {D : Type 0} where
  -- The first message of a connection, and the queue.
  abbrev pub delivered : Bool → List (Message D) → List (Emitted D)
  delivered is_first [] = []
  delivered is_first (m ∷ ms) = emit is_first m ∷ delivered false ms

  abbrev pub connected : SocketHandler D
  connected = record { parser = start; buffer = [] }

module _ {D : Type 0} (json : Json D) where
  open json use {from_json, to_json, from_json-to_json}

  Emptied : ℕ → List (Message D) → Parser D → Type 0
  Emptied n ms p =
      (q : Parser D) × (forward from_json n p ≡ paused q)
      × (q.unread ≡ [])
      × (q.emitted ≡ p.emitted ++ delivered p.is_first_message ms)

  forward-wire :
      (n : ℕ) (ms : List (Message D)) (p : Parser D)
      → p.reading_state ≡ header
      → p.unread ≡ wire json ms
      → All (Fits json) ms
      → 2 * length ms < n
      → Emptied n ms p
  unfolding Emptied
  forward-wire zero ms p s e fit h = absurd (omega arith)
  forward-wire (suc n) [] p s e fit h = (
    p,
    forward-waits from_json n p (handle-header from_json p s ∙ handle_header-few p (rw e refl)),
    e,
    sym (append_empty p.emitted),
  )
  forward-wire (suc zero) (m ∷ ms) p s e fit h = absurd (omega arith)
  forward-wire (suc (suc n)) (m ∷ ms) p s e fit h =
      let text = to_json m.content in
      let next = after_message from_json m.type text (wire json ms) p in
      let (q, found, read, all) = forward-wire n ms next refl refl fit.1 (omega arith) in
      (
        q,
        forward-send from_json n m.type text (wire json ms) p fit.0.0 fit.0.1 s e ∙ found,
        read,
        all
            ∙ append_assoc p.emitted
                (emit p.is_first_message (record { type = m.type; content = from_json text }) ∷ [])
                (delivered false ms)
            ∙ ap
                (λ c.
                  p.emitted
                  ++ (emit p.is_first_message (record { type = m.type; content = c })
                      ∷ delivered false ms))
                (from_json-to_json m.content),
      )

  length-wire : (ms : List (Message D)) → 8 * length ms ≤ length (wire json ms)
  length-wire [] = omega arith
  length-wire (m ∷ ms) =
      omega (arith, length-wire ms, length-send m.type (to_json m.content) (wire json ms))

  -- A list of messages that fit their headers, sent one after the other with sendMessage and delivered
  -- by the socket in any pieces, reaches the other side's handler complete and in order, with
  -- nothing left in its buffer, when JSON texts are read as the documents that they were made from.
  pub messages_arrive :
      (ms : List (Message D)) (piece : List ℕ) (pieces : List (List ℕ))
      → All (Fits json) ms
      → concat (piece ∷ pieces) ≡ wire json ms
      → (q : Parser D) × (parser_of (receive from_json (piece ∷ pieces) connected) ≡ some q)
        × (q.emitted ≡ delivered true ms)
        × (q.unread ≡ [])
  unfolding Emptied feed_forward start
  messages_arrive ms piece pieces fit cut =
      let p = append (concat (piece ∷ pieces)) start in
      let (q, found, read, all) =
        forward-wire (enough p) ms p refl cut fit (omega (arith, length-wire ms, ap length cut)) in
      (q, receive_pieces from_json piece pieces connected q found, all, read)
