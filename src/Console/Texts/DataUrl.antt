-- ===== src/Console/Texts/DataUrl.antt =====
-- What a browser reads out of a data URL.
use riscv_exam_computer.Base.{
  ℕ, ◌+◌, ◌*◌, ◌/◌, ◌%◌, ◌<◌, ◌≡◌, refl, ap, ◌∙◌, true, false, Option, none, some, List, [], ◌∷◌,
  ◌++◌, All, All-append, arith, ◌==◌, if◌then◌else◌, opt_bind, opt_map, Bool-cases, inl, inr, Str,
  txt, utf8, char_utf8, is_ascii_alphanumeric,
}
use riscv_exam_computer.SebFile.Hex.{from_hex_digit}
use riscv_exam_computer.Console.Texts.{hex_upper, is_plain, escape_byte, escape_bytes, data_url}

-- Percent-decoding: two digits after a percent sign are a byte, any other character is itself.
pub percent_decode : Str → Option (List ℕ)
percent_decode [] = some []
percent_decode (c ∷ []) = if c == b'%' then none else some (c ∷ [])
percent_decode (c ∷ d ∷ []) =
    if c == b'%' then none else opt_map (λ bs. c ∷ bs) (percent_decode (d ∷ []))
percent_decode (c ∷ d ∷ e ∷ s) =
    let plain = percent_decode (d ∷ e ∷ s) in
    let coded = percent_decode s in
    if c == b'%'
    then opt_bind (from_hex_digit d)
        (λ x. opt_bind (from_hex_digit e) (λ y. opt_map (λ bs. (x * 16 + y) ∷ bs) coded))
    else opt_map (λ bs. c ∷ bs) plain

from_hex_digit-hex_upper : (n : ℕ) → n < 16 → from_hex_digit (hex_upper n) ≡ some n
unfolding from_hex_digit hex_upper
from_hex_digit-hex_upper n h = ground arith

decode-plain :
    (c : ℕ) (s : Str)
    → (c == b'%') ≡ false
    → percent_decode (c ∷ s) ≡ opt_map (λ bs. c ∷ bs) (percent_decode s)
unfolding percent_decode
decode-plain c [] h = ground arith
decode-plain c (d ∷ []) h = ground arith
decode-plain c (d ∷ e ∷ s) h = rw h refl

decode-coded :
    (b : ℕ) (s : Str)
    → b < 256
    → percent_decode (b'%' ∷ hex_upper (b / 16) ∷ hex_upper (b % 16) ∷ s)
      ≡ opt_map (λ bs. b ∷ bs) (percent_decode s)
unfolding percent_decode
decode-coded b s h =
    let whole : b / 16 * 16 + b % 16 ≡ b = omega arith in
    rw
      (
        from_hex_digit-hex_upper (b / 16) (omega arith),
        from_hex_digit-hex_upper (b % 16) (omega arith),
        whole,
      )
      refl

percent-not_plain : (b : ℕ) → is_plain b ≡ true → (b == b'%') ≡ false
unfolding txt is_ascii_alphanumeric
percent-not_plain b h = ground arith

decode-escape_byte :
    (b : ℕ) (s : Str)
    → b < 256
    → percent_decode (escape_byte b ++ s) ≡ opt_map (λ bs. b ∷ bs) (percent_decode s)
unfolding escape_byte
decode-escape_byte b s h = elim (Bool-cases (is_plain b)) [
  | inl e ↦ rw e (decode-plain b s (percent-not_plain b e))
  | inr e ↦ rw e (decode-coded b s h)
]

decode-escape_bytes :
    (bs : List ℕ) → All (λ b. b < 256) bs → percent_decode (escape_bytes bs) ≡ some bs
unfolding escape_bytes percent_decode
decode-escape_bytes [] h = refl
decode-escape_bytes (b ∷ bs) (p, h) =
    decode-escape_byte b (escape_bytes bs) p ∙ ap (opt_map (λ r. b ∷ r)) (decode-escape_bytes bs h)

char_utf8-bytes : (c : ℕ) → c < 0x110000 → All (λ b. b < 256) (char_utf8 c)
unfolding char_utf8
char_utf8-bytes c h = ground arith

utf8-bytes : (s : Str) → All (λ c. c < 0x110000) s → All (λ b. b < 256) (utf8 s)
unfolding utf8
utf8-bytes [] h = tt
utf8-bytes (c ∷ s) (p, h) =
    All-append (λ b. b < 256) (char_utf8 c) (utf8 s) (char_utf8-bytes c p) (utf8-bytes s h)

-- The link to an exam's JSON is a data URL whose part behind the comma, percent-decoded, is the UTF-8
-- text of the JSON, whatever characters that has.
pub data_url-decodes :
    (json : Str)
    → All (λ c. c < 0x110000) json
    → (rest : Str) × (data_url json ≡ txt "data:application/json;charset=utf-8," ++ rest)
      × (percent_decode rest ≡ some (utf8 json))
unfolding data_url
data_url-decodes json h =
    (escape_bytes (utf8 json), refl, decode-escape_bytes (utf8 json) (utf8-bytes json h))
