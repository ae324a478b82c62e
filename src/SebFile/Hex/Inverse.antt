-- ===== src/SebFile/Hex/Inverse.antt =====
-- `hex` and `from_hex` after one another.
use riscv_exam_computer.Base.{
  ℕ, ◌*◌, ◌/◌, ◌%◌, ◌<◌, ◌≡◌, refl, ap, ◌∙◌, false, some, List, [], ◌∷◌, arith, All, ◌==◌, utf8,
  char_utf8, length,
}
use riscv_exam_computer.SebFile.Hex.{hex_digit, hex, from_hex_digit, hex_pair, from_hex}

hex_digit-ascii : (n : ℕ) → n < 16 → hex_digit n < 128
unfolding hex_digit
hex_digit-ascii n h = ground arith

hex_digit-plus : (n : ℕ) → n < 16 → (hex_digit n == b'+') ≡ false
unfolding hex_digit
hex_digit-plus n h = ground arith

from_hex_digit-hex_digit : (n : ℕ) → n < 16 → from_hex_digit (hex_digit n) ≡ some n
unfolding from_hex_digit hex_digit
from_hex_digit-hex_digit n h = ground arith

hex_pair-hex_digit : (b : ℕ) → b < 256 → hex_pair (hex_digit (b / 16)) (hex_digit (b % 16)) ≡ some b
unfolding hex_pair
hex_pair-hex_digit b h =
    let hi : b / 16 < 16 = omega arith in
    let lo : b % 16 < 16 = omega arith in
    rw
      (
        hex_digit-plus (b / 16) hi,
        from_hex_digit-hex_digit (b / 16) hi,
        from_hex_digit-hex_digit (b % 16) lo,
      )
      (ap some (omega arith))

-- The digits are ASCII, so the bytes of the text are its characters.
pub utf8-hex : (bs : List ℕ) → All (λ b. b < 256) bs → utf8 (hex bs) ≡ hex bs
unfolding utf8 hex char_utf8
utf8-hex [] h = refl
utf8-hex (b ∷ bs) (p, h) =
    let hi = hex_digit-ascii (b / 16) (omega arith) in
    let lo = hex_digit-ascii (b % 16) (omega arith) in ground (arith, hi, lo, utf8-hex bs h)

pub length-hex : (bs : List ℕ) → length (hex bs) ≡ 2 * length bs
unfolding hex
length-hex [] = refl
length-hex (b ∷ bs) = omega (arith, length-hex bs)

from_hex-of_hex : (bs : List ℕ) → All (λ b. b < 256) bs → from_hex (hex bs) ≡ some bs
unfolding from_hex hex
from_hex-of_hex [] h = refl
from_hex-of_hex (b ∷ bs) (p, h) = rw (hex_pair-hex_digit b p, from_hex-of_hex bs h) refl

-- The bytes of the hex text of any bytes are read back as those bytes.
from_hex-hex : (bs : List ℕ) → All (λ b. b < 256) bs → from_hex (utf8 (hex bs)) ≡ some bs
from_hex-hex bs h = ap from_hex (utf8-hex bs h) ∙ from_hex-of_hex bs h
