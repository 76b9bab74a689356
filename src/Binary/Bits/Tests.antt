-- ===== src/Binary/Bits/Tests.antt =====
-- Concrete bytes for the theorems on bits.
use squidlet.Base.{
  ◌≡◌, List, [], ◌∷◌, Bool, true, false, leb, ◌==◌, if◌then◌else◌, ok, throws, ◌>>=◌,
}
use squidlet.Binary.Bits.{
  update_bit_in_byte, get_bit_from_byte, incorrect_position, incorrect_get_position,
}
use squidlet.Binary.Bits.Laws.{get_bit_from_byte-update_bit_in_byte}

abbrev eight_bits : List Bool
eight_bits = true ∷ true ∷ false ∷ false ∷ true ∷ false ∷ false ∷ false ∷ []

get_bit_from_byte-update_bit_in_byte_example :
    (update_bit_in_byte 8 2 true >>= λ b. get_bit_from_byte b 3) ≡ (
      if leb 8 2
      then throws incorrect_position
      else if 2 == 3
      then (if leb 8 3 then throws incorrect_get_position else ok true)
      else get_bit_from_byte 8 3)
get_bit_from_byte-update_bit_in_byte_example = get_bit_from_byte-update_bit_in_byte 8 2 3 true
