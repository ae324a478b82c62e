-- ===== src/SebFile/Hex.antt =====
-- `hex` of seb_file.rs, and its inverse in `Fleet::seb_build`.
pub mod Inverse
use riscv_exam_computer.Base.{
  ℕ, ◌+◌, ◌-◌, ◌*◌, ◌/◌, ◌%◌, ◌≡◌, refl, Bool, ◌&&◌, Option, none, some, List, [], ◌∷◌, ltb, leb,
  ◌==◌, if◌then◌else◌, opt_bind, opt_map, Str, txt,
}

-- The digit of `{:02x}`.
unfoldable pub hex_digit : ℕ → ℕ
hex_digit n = if ltb n 10 then 48 + n else 87 + n

unfoldable pub hex : List ℕ → Str
unfolding hex_digit
hex [] = []
hex (b ∷ bs) = hex_digit (b / 16) ∷ hex_digit (b % 16) ∷ hex bs

-- `char::to_digit(16)`.
unfoldable pub from_hex_digit : ℕ → Option ℕ
from_hex_digit c =
    if leb b'0' c && leb c b'9'
    then some (c - 48)
    else if leb b'a' c && leb c b'f'
    then some (c - 87)
    else if leb b'A' c && leb c b'F'
    then some (c - 55)
    else none

-- `u8::from_str_radix(s, 16)` on two bytes; a leading `+` is a sign.
unfoldable pub hex_pair : ℕ → ℕ → Option ℕ
unfolding from_hex_digit
hex_pair a b =
    if a == b'+'
    then from_hex_digit b
    else opt_bind (from_hex_digit a) (λ x. opt_map (λ y. x * 16 + y) (from_hex_digit b))

-- All pairs of digits, from the front; an odd last byte is left out.
unfoldable pub from_hex : List ℕ → Option (List ℕ)
unfolding hex_pair
from_hex [] = some []
from_hex (a ∷ []) = some []
from_hex (a ∷ b ∷ s) =
    let rest = from_hex s in opt_bind (hex_pair a b) (λ x. opt_map (λ xs. x ∷ xs) rest)

hex_runs : hex (0 ∷ 171 ∷ 255 ∷ []) ≡ txt "00abff"
unfolding hex txt
hex_runs = refl
