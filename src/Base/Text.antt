-- ===== src/Base/Text.antt =====
-- Rust's `str` as the list of its code points: the standard library's searches, trims and splits,
-- and the UTF-8 form where the source counts or hashes bytes.
use Prim.Native.Nat.{ℕ, ◌+◌, ◌-◌, ◌/◌, ◌%◌, compare, Ordering}
use Prim.Native.Char.{code}
use Prim.Native.String.{String}
use mathlib.Core.Path.{◌≡◌, refl}
use mathlib.Core.Logic.{◌↔◌}
use mathlib.Core.Bool.{Bool, true, false, ◌&&◌, ◌||◌}
use mathlib.Core.Option.{Option, none, some}
use mathlib.Core.List.{List, [], ◌∷◌, ◌++◌, map}
use native.Mathlib.Omega.{arith}
use riscv_exam_computer.Base.Tests.{ltb, leb, ◌==◌, if◌then◌else◌}
use riscv_exam_computer.Base.Lists.{null}

abbrev pub Str : Type 0
Str = List ℕ

-- A literal of the source. Proofs keep it shut.
unfoldable pub txt : String → Str
txt String.[] = []
txt (String.◌∷◌ c s) = code c ∷ txt s

-- `Ord for str`: the order of the UTF-8 bytes, which is that of the code points.
unfoldable pub cmp : Str → Str → Ordering
cmp [] [] = Ordering.eq
cmp [] (y ∷ t) = Ordering.lt
cmp (x ∷ s) [] = Ordering.gt
cmp (x ∷ s) (y ∷ t) =
    let rest = cmp s t in
    elim (compare x y) [
      | Ordering.lt ↦ Ordering.lt
      | Ordering.eq ↦ rest
      | Ordering.gt ↦ Ordering.gt
    ]

unfoldable pub str_eq : Str → Str → Bool
str_eq [] [] = true
str_eq [] (y ∷ t) = false
str_eq (x ∷ s) [] = false
str_eq (x ∷ s) (y ∷ t) = x == y && str_eq s t

pub str_eq_iff : (s t : Str) → (str_eq s t ≡ true) ↔ (s ≡ t)
unfolding str_eq
str_eq_iff [] [] = ground arith
str_eq_iff [] (y ∷ t) = ground arith
str_eq_iff (x ∷ s) [] = ground arith
str_eq_iff (x ∷ s) (y ∷ t) = ground (arith, str_eq_iff s t)

pub str_eq_refl : (s : Str) → str_eq s s ≡ true
str_eq_refl s = (str_eq_iff s s).1 refl

pub cmp_iff : (s t : Str) → (cmp s t ≡ Ordering.eq) ↔ (s ≡ t)
unfolding cmp
cmp_iff [] [] = ground arith
cmp_iff [] (y ∷ t) = ground arith
cmp_iff (x ∷ s) [] = ground arith
cmp_iff (x ∷ s) (y ∷ t) = ground (arith, cmp_iff s t)

unfoldable pub opt_str_eq : Option Str → Option Str → Bool
opt_str_eq none none = true
opt_str_eq none (some t) = false
opt_str_eq (some s) none = false
opt_str_eq (some s) (some t) = str_eq s t

pub opt_str_eq_iff : (a b : Option Str) → (opt_str_eq a b ≡ true) ↔ (a ≡ b)
unfolding opt_str_eq
opt_str_eq_iff none none = ground arith
opt_str_eq_iff none (some t) = ground arith
opt_str_eq_iff (some s) none = ground arith
opt_str_eq_iff (some s) (some t) = ground (arith, str_eq_iff s t)

unfoldable pub starts_with : Str → Str → Bool
starts_with s [] = true
starts_with [] (y ∷ t) = false
starts_with (x ∷ s) (y ∷ t) = x == y && starts_with s t

unfoldable pub ends_with : Str → Str → Bool
unfolding str_eq
ends_with [] t = str_eq [] t
ends_with (x ∷ s) t = str_eq (x ∷ s) t || ends_with s t

unfoldable pub contains_str : Str → Str → Bool
unfolding starts_with
contains_str [] t = starts_with [] t
contains_str (x ∷ s) t = starts_with (x ∷ s) t || contains_str s t

unfoldable pub strip_prefix : Str → Str → Option Str
strip_prefix s [] = some s
strip_prefix [] (y ∷ t) = none
strip_prefix (x ∷ s) (y ∷ t) = if x == y then strip_prefix s t else none

abbrev pub cons_head : ℕ → List Str → List Str
cons_head c [] = (c ∷ []) ∷ []
cons_head c (s ∷ ss) = (c ∷ s) ∷ ss

-- `str::split` at the characters that satisfy a test; there is always a first piece.
unfoldable pub split : (ℕ → Bool) → Str → List Str
split p [] = [] ∷ []
split p (c ∷ s) = let rest = split p s in if p c then [] ∷ rest else cons_head c rest

-- `str::rsplit_once` at a character: the last occurrence.
unfoldable pub rsplit_once : ℕ → Str → Option (Str × Str)
rsplit_once c [] = none
rsplit_once c (x ∷ s) = elim (rsplit_once c s) [
  | some (a, b) ↦ some (x ∷ a, b)
  | none ↦ if x == c then some ([], s) else none
]

-- `char::is_whitespace`, the property White_Space.
unfoldable pub is_whitespace : ℕ → Bool
is_whitespace c =
    (leb 9 c && leb c 13)
    || c == 32
    || c == 0x85
    || c == 0xa0
    || c == 0x1680
    || (leb 0x2000 c && leb c 0x200a)
    || c == 0x2028
    || c == 0x2029
    || c == 0x202f
    || c == 0x205f
    || c == 0x3000

-- `char::is_control`, the category Cc.
unfoldable pub is_control : ℕ → Bool
is_control c = ltb c 32 || (leb 0x7f c && leb c 0x9f)

unfoldable pub is_ascii_digit : ℕ → Bool
is_ascii_digit c = leb b'0' c && leb c b'9'

unfoldable pub is_ascii_alphanumeric : ℕ → Bool
unfolding is_ascii_digit
is_ascii_alphanumeric c =
    is_ascii_digit c || (leb b'a' c && leb c b'z') || (leb b'A' c && leb c b'Z')

unfoldable pub to_ascii_lower : ℕ → ℕ
to_ascii_lower c = if leb b'A' c && leb c b'Z' then c + 32 else c

unfoldable pub to_ascii_upper : ℕ → ℕ
to_ascii_upper c = if leb b'a' c && leb c b'z' then c - 32 else c

unfoldable pub to_ascii_lowercase : Str → Str
unfolding to_ascii_lower
to_ascii_lowercase s = map to_ascii_lower s

unfoldable pub trim_start : (ℕ → Bool) → Str → Str
trim_start p [] = []
trim_start p (c ∷ s) = if p c then trim_start p s else c ∷ s

unfoldable pub trim_end_matches : (ℕ → Bool) → Str → Str
trim_end_matches p [] = []
trim_end_matches p (c ∷ s) =
    let rest = trim_end_matches p s in if p c && null rest then [] else c ∷ rest

unfoldable pub trim_end : Str → Str
unfolding trim_end_matches is_whitespace
trim_end s = trim_end_matches is_whitespace s

unfoldable pub trim : Str → Str
unfolding trim_start trim_end is_whitespace
trim s = trim_end (trim_start is_whitespace s)

unfoldable pub mem_str : Str → List Str → Bool
unfolding str_eq
mem_str s [] = false
mem_str s (t ∷ ts) = str_eq t s || mem_str s ts

-- `[String]::join`.
unfoldable pub join : Str → List Str → Str
join sep [] = []
join sep (s ∷ []) = s
join sep (s ∷ t ∷ ts) = s ++ sep ++ join sep (t ∷ ts)

-- `char::len_utf8` and `str::len`.
unfoldable pub char_utf8_len : ℕ → ℕ
char_utf8_len c =
    if ltb c 0x80 then 1 else if ltb c 0x800 then 2 else if ltb c 0x10000 then 3 else 4

unfoldable pub utf8_len : Str → ℕ
unfolding char_utf8_len
utf8_len [] = 0
utf8_len (c ∷ s) = char_utf8_len c + utf8_len s

-- `str::as_bytes`.
unfoldable pub char_utf8 : ℕ → List ℕ
char_utf8 c =
    if ltb c 0x80
    then c ∷ []
    else if ltb c 0x800
    then (0xc0 + c / 64) ∷ (0x80 + c % 64) ∷ []
    else if ltb c 0x10000
    then (0xe0 + c / 4096) ∷ (0x80 + c / 64 % 64) ∷ (0x80 + c % 64) ∷ []
    else (0xf0 + c / 262144) ∷ (0x80 + c / 4096 % 64) ∷ (0x80 + c / 64 % 64) ∷ (0x80 + c % 64) ∷ []

unfoldable pub utf8 : Str → List ℕ
unfolding char_utf8
utf8 [] = []
utf8 (c ∷ s) = char_utf8 c ++ utf8 s

trim_runs : trim (txt "  a b \n") ≡ txt "a b"
unfolding trim txt
trim_runs = refl

split_runs : split (λ c. c == b',') (txt "a,,b") ≡ txt "a" ∷ [] ∷ txt "b" ∷ []
unfolding split txt
split_runs = refl
