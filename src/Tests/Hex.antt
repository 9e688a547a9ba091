-- ===== src/Tests/Hex.antt =====
-- utility/hexChar.c at concrete inputs.
use epoll_model.Prelude.{fault, ◌≡◌, refl, [], ◌∷◌, ◌++◌, pos, ok, arith}
use epoll_model.Memory.{write_at}
use epoll_model.HexChar.{char_to_hex, hex_to_char}
use epoll_model.HexChar.Inverse.{hex_to_char_lem}
use epoll_model.HexChar.Encode.{hex_digits, char_to_hex_lem}

test_encode :
    char_to_hex (0 ∷ 0 ∷ 0 ∷ 0 ∷ 9 ∷ []) (0x1f ∷ 0xa0 ∷ []) (pos 2)
    ≡ ok (49 ∷ 70 ∷ 65 ∷ 48 ∷ 9 ∷ [])
unfolding char_to_hex write_at
test_encode = refl

test_decode : hex_to_char (0 ∷ 0 ∷ []) (7 ∷ 49 ∷ 70 ∷ 65 ∷ 48 ∷ []) 1 4 ≡ ok (0x1f ∷ 0xa0 ∷ [])
unfolding hex_to_char write_at
test_decode = refl

char_to_hex_lem_example :
    char_to_hex (0 ∷ 0 ∷ 0 ∷ 0 ∷ 9 ∷ []) (0x1f ∷ 0xa0 ∷ 7 ∷ []) (pos 2)
    ≡ ok (hex_digits (0x1f ∷ 0xa0 ∷ []) ++ 9 ∷ [])
char_to_hex_lem_example =
    char_to_hex_lem (0x1f ∷ 0xa0 ∷ []) (7 ∷ []) (0 ∷ 0 ∷ 0 ∷ 0 ∷ 9 ∷ [])
      (omega arith, (omega arith, tt)) (omega arith)

hex_to_char_lem_example :
    hex_to_char (0 ∷ 0 ∷ 5 ∷ []) ((7 ∷ []) ++ (hex_digits (0x1f ∷ 0xa0 ∷ []) ++ [])) 1 4
    ≡ ok ((0x1f ∷ 0xa0 ∷ []) ++ 5 ∷ [])
hex_to_char_lem_example =
    hex_to_char_lem (0x1f ∷ 0xa0 ∷ []) (7 ∷ []) [] (0 ∷ 0 ∷ 5 ∷ []) (omega arith, (omega arith, tt))
      (omega arith) (omega arith)

-- A lower-case digit: "1f" gives 0x3f.
test_lower : hex_to_char (0 ∷ []) (7 ∷ 49 ∷ 102 ∷ []) 1 2 ≡ ok (0x3f ∷ [])
unfolding hex_to_char write_at
test_lower = refl

-- With nothing in front of the digits, the last round reads outside the object.
test_underflow : hex_to_char (0 ∷ []) (49 ∷ 70 ∷ []) 0 2 ≡ fault
unfolding hex_to_char write_at
test_underflow = refl
