-- ===== src/Examples/Packets.antt =====
-- Messages on a socket: sources/client/net/Network2.cpp.
use griefly.Prelude.{ℕ, ◌≡◌, ◌⊎◌, refl, some, true, List, [], ◌∷◌, ◌++◌, arith}
use griefly.Prelude.Int.{pos, negsuc}
use griefly.Network.{
  Message, Parser, header, paused, out_of_fuel, start, append, drain, handle, waits, feed, receive,
  send_message, to_big_endian,
}
use griefly.Serializer.{to_uint32}
use griefly.Network.Feeding.{ComesBack, feed_ends}
use griefly.Network.Endless.{minus_eight, negative_size_loops}
use griefly.Network.Pieces.{concat, parser_of}
use griefly.Network.Arrival.{Json, wire, delivered, connected, messages_arrive}

-- Documents that are their own texts.
abbrev plain : Json (List ℕ)
plain = record { from_json = λ t. t; to_json = λ t. t; from_json-to_json = λ t. refl }

abbrev login : Message (List ℕ)
login = record { type = pos 301; content = 123 ∷ 125 ∷ [] }

abbrev quit : Message (List ℕ)
quit = record { type = negsuc 1; content = [] }

abbrev first_piece : List ℕ
first_piece = 0 ∷ 0 ∷ 0 ∷ 2 ∷ 0 ∷ 0 ∷ 1 ∷ []

abbrev second_piece : List ℕ
second_piece = 45 ∷ 123 ∷ 125 ∷ 0 ∷ 0 ∷ 0 ∷ 0 ∷ 255 ∷ 255 ∷ 255 ∷ 254 ∷ []

sent : concat (first_piece ∷ second_piece ∷ []) ≡ wire plain (login ∷ quit ∷ [])
unfolding send_message to_big_endian to_uint32
sent = refl

feed_ends_example :
    ((q : Parser (List ℕ)) × (feed (λ t. t) [] first_piece start ≡ paused q)
      × (handle (λ t. t) q ≡ waits))
    ⊎ ComesBack (λ t. t) (append first_piece start)
feed_ends_example = feed_ends (λ t. t) [] first_piece start

-- A state that has not read a header of a size of -8 yet.
abbrev stuck : Parser (List ℕ)
stuck = record {
  reading_state = header;
  message_size = pos 0;
  message_type = pos 0;
  unread = minus_eight 301 ++ (123 ∷ []);
  is_first_message = true;
  emitted = [];
}

negative_size_loops_example :
    drain (λ t. t) (9 ∷ (minus_eight 301 ++ (123 ∷ []))) 1000 stuck ≡ out_of_fuel
negative_size_loops_example =
    negative_size_loops (λ t. t) 1000 (9 ∷ []) 301 (123 ∷ []) stuck refl refl

messages_arrive_example :
    (q : Parser (List ℕ)) × (parser_of
        (receive (λ t. t) (first_piece ∷ second_piece ∷ []) (connected))
      ≡ some q)
    × (q.emitted ≡ delivered true (login ∷ quit ∷ []))
    × (q.unread ≡ [])
messages_arrive_example =
    messages_arrive plain (login ∷ quit ∷ []) first_piece (second_piece ∷ [])
      (((omega arith, omega arith), omega arith), (((omega arith, omega arith), omega arith), tt))
      sent
