-- ===== src/Examples/Streams.antt =====
-- Streams: sources/core/FastSerializer.h.
use griefly.Prelude.{◌≤◌, ◌↔◌, ◌≡◌, refl, arith, [], ◌∷◌}
use griefly.Prelude.Int.{pos, negsuc}
use griefly.Serializer.{done, Reader, ensure_size}
use griefly.Serializer.Values.{escape, replace}
use griefly.Serializer.Stream.{ensure_size_exact}

abbrev half_read : Reader
half_read = record { rest = 1 ∷ 2 ∷ []; index = 3 }

ensure_size_exact_example :
    ((ensure_size (pos 1) half_read ≡ done tt) ↔ (1 ≤ 2))
    × ((ensure_size (negsuc 1) half_read ≡ done tt) ↔ (2 ≤ 3))
ensure_size_exact_example = ensure_size_exact 1 half_read (omega arith) (omega arith)

-- The text "a $!" of a string is "a$\$!".
escaped : escape (97 ∷ b' ' ∷ b'$' ∷ b'!' ∷ []) ≡ 97 ∷ b'$' ∷ 0x5c ∷ b'$' ∷ b'!' ∷ []
unfolding escape replace
escaped = refl
