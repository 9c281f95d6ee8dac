-- ===== src/Network.antt =====
-- SocketHandler of sources/client/net/Network2.h and Network2.cpp: the bytes of the socket are put
-- together into messages. `unread` is the part of `buffer_` from `buffer_pos_` on. What the handler
-- emits, as its first message and into the queue of Network2, is the list `emitted`. The conversion of
-- a JSON text is Qt's, and a parameter. The whole of `buffer_` is needed for a body of a negative size,
-- which moves `buffer_pos_` back: the loop reads on from there, and can do so for ever. Login and the error
-- paths of the socket are left out.
pub mod Rounds
pub mod Forward
pub mod Feeding
pub mod Pieces
pub mod Arrival
pub mod Endless
use griefly.Prelude.{
  ℕ, zero, suc, ◌+◌, ◌*◌, ◌/◌, ◌%◌, ◌-◌, ◌==◌, Bool, true, false, Option, none, some, ltb,
  if◌then◌else◌, List, [], ◌∷◌, ◌++◌, length, take, drop,
}
use griefly.Prelude.Int.{ℤ, pos, negsuc, ltb_ℤ}
use griefly.Serializer.{to_uint32, to_int32}

abbrev pub header_size : ℕ
header_size = 8

abbrev pub max_buffer_size : ℕ
max_buffer_size = 131072

-- qFromBigEndian and qToBigEndian, of four bytes
unfoldable pub from_big_endian : ℕ → List ℕ → ℕ
from_big_endian acc [] = acc
from_big_endian acc (b ∷ bytes) = from_big_endian (acc * 256 + b) bytes

unfoldable pub to_big_endian : ℕ → List ℕ
to_big_endian w = w / 0x100_0000 % 256 ∷ w / 0x1_0000 % 256 ∷ w / 0x100 % 256 ∷ w % 256 ∷ []

pub data ReadingState : Type 0 where
  header body : ReadingState

pub record Message (Document : Type 0) : Type 0 where
  pub type : ℤ
  pub content : Document

-- firstMessage goes to HandleFirstMessage, the others to the queue.
pub data Emitted (Document : Type 0) : Type 0 where
  first : Message Document → Emitted Document
  queued : Message Document → Emitted Document

pub record Parser (Document : Type 0) : Type 0 where
  pub reading_state : ReadingState
  pub message_size : ℤ
  pub message_type : ℤ
  pub unread : List ℕ
  pub is_first_message : Bool
  pub emitted : List (Emitted Document)

-- What HandleHeader and HandleBody do: return false, or true with a new state, or, with a body of a
-- negative size, true with a new state whose position is still to be moved back by a number of bytes.
pub data Progress (Document : Type 0) : Type 0 where
  waits : Progress Document
  goes_on : Parser Document → Progress Document
  goes_back : ℕ → Parser Document → Progress Document

-- What a number of rounds of the loop come to. It is `lost` over a position in front of the buffer, which
-- C++ reads all the same, and `out_of_fuel` when it goes on.
pub data Run (Document : Type 0) : Type 0 where
  paused : Parser Document → Run Document
  lost : Run Document
  out_of_fuel : Run Document

pub record SocketHandler (Document : Type 0) : Type 0 where
  pub parser : Parser Document
  pub buffer : List ℕ

-- The buffer after the loop, of the whole and its part that is unread: the bytes before the position are
-- removed from a large one.
abbrev pub kept : List ℕ → List ℕ → List ℕ
kept whole unread = if ltb max_buffer_size (length whole) then unread else whole

-- What QByteArray::append takes for a negative size: the bytes up to a zero. The array has one behind its end.
unfoldable pub c_string : List ℕ → List ℕ
c_string [] = []
c_string (b ∷ bytes) = if b == 0 then [] else b ∷ c_string bytes

module _ {Document : Type 0} where
  -- SocketHandler::process, on the messages emitted before
  unfoldable pub start : Parser Document
  start = record {
    reading_state = header;
    message_size = pos 0;
    message_type = pos 0;
    unread = [];
    is_first_message = true;
    emitted = [];
  }

  -- HandleHeader after its test.
  unfoldable pub read_header : Parser Document → Parser Document
  read_header p = record p {
    message_size = to_int32 (from_big_endian 0 (take 4 p.unread));
    message_type = to_int32 (from_big_endian 0 (take 4 (drop 4 p.unread)));
    unread = drop 8 p.unread;
    reading_state = body;
  }

  -- HandleHeader
  unfoldable pub handle_header : Parser Document → Progress Document
  handle_header p = if ltb (length p.unread) header_size then waits else goes_on (read_header p)

  abbrev emit : Bool → Message Document → Emitted Document
  emit is_first m = if is_first then first m else queued m

  abbrev pub append : List ℕ → Parser Document → Parser Document
  append new_data p = record p { unread = p.unread ++ new_data }

  -- Two rounds for every byte, and two more.
  abbrev pub rounds : List ℕ → Parser Document → ℕ
  rounds whole p = 2 + 2 * (length whole + length p.unread)

  -- The state whose position is n bytes further back in the buffer.
  unfoldable pub back : List ℕ → ℕ → Parser Document → Option (Parser Document)
  back whole n p =
      let position = length whole - length p.unread in
      if ltb position n then none else some (record p { unread = drop (position - n) whole })

module _ {Document : Type 0} (from_json : List ℕ → Document) where
  -- The message is emitted, with its text.
  abbrev deliver : List ℕ → Parser Document → Parser Document
  deliver text p = record p {
    emitted =
        p.emitted
        ++ (emit p.is_first_message (record { type = p.message_type; content = from_json text })
            ∷ []);
    is_first_message = false;
    reading_state = header;
  }

  -- HandleBody after its test, for a size of n bytes.
  unfoldable pub take_body : ℕ → Parser Document → Parser Document
  take_body n p = record (deliver (take n p.unread) p) { unread = drop n p.unread }

  -- HandleBody for a negative size, for which its test does not hold, up to the move back.
  unfoldable pub take_negative : Parser Document → Parser Document
  unfolding c_string
  take_negative p = deliver (c_string p.unread) p

  -- HandleBody
  unfoldable pub handle_body : Parser Document → Progress Document
  handle_body p = elim p.message_size [
    | pos n ↦ if ltb (length p.unread) n then waits else goes_on (take_body n p)
    | negsuc n ↦ goes_back (suc n) (take_negative p)
  ]

  -- The switch of handleNewData.
  unfoldable pub handle : Parser Document → Progress Document
  handle p = elim p.reading_state [ header ↦ handle_header p | body ↦ handle_body p ]

  -- The loop of handleNewData, on the whole buffer.
  unfoldable pub drain : List ℕ → ℕ → Parser Document → Run Document
  drain whole zero p = out_of_fuel
  drain whole (suc fuel) p = elim (handle p) [
    | waits ↦ paused p
    | goes_on q ↦ drain whole fuel q
    | goes_back n q ↦ elim (back whole n q) [ none ↦ lost | some r ↦ drain whole fuel r ]
  ]

  -- handleNewData, up to the state of the buffer, of which there was some before
  unfoldable pub feed : List ℕ → List ℕ → Parser Document → Run Document
  feed buffer new_data p =
      let whole = buffer ++ new_data in let q = append new_data p in drain whole (rounds whole q) q

  -- handleNewData; a loop that has not ended, or has left its buffer, is `none`.
  unfoldable pub handle_new_data : List ℕ → SocketHandler Document → Option (SocketHandler Document)
  handle_new_data new_data h = elim (feed h.buffer new_data h.parser) [
    | paused p ↦ some (record { parser = p; buffer = kept (h.buffer ++ new_data) p.unread })
    | lost ↦ none
    | out_of_fuel ↦ none
  ]

  -- What the socket delivers, piece by piece.
  unfoldable pub receive : List (List ℕ) → SocketHandler Document → Option (SocketHandler Document)
  receive [] h = some h
  receive (piece ∷ pieces) h = elim (handle_new_data piece h) [
    | none ↦ none
    | some g ↦ receive pieces g
  ]

-- sendMessage, what it writes to the socket for a JSON text
unfoldable pub send_message : ℤ → List ℕ → List ℕ
send_message type json =
    to_big_endian (to_uint32 (pos (length json))) ++ to_big_endian (to_uint32 type) ++ json
