-- ===== src/Auth/Origin.antt =====
-- Cookies, the Origin check, and random secrets.
use riscv_exam_computer.Base.{
  ℕ, ◌≡◌, refl, Bool, true, false, not, ◌&&◌, Option, none, some, List, [], ◌∷◌, ◌==◌, ◌%◌, map,
  join, drop, take, txt, if◌then◌else◌, any, null, Str, str_eq, split, trim, trim_end_matches,
  to_ascii_lowercase,
}
use riscv_exam_computer.SebFile.Hex.{hex}
use riscv_exam_computer.Seb.{first_piece, ends_authority, strip_scheme}

-- `split_once('=')`.
unfoldable pub split_once : ℕ → Str → Option (Str × Str)
split_once c [] = none
split_once c (x ∷ s) =
    let rest = split_once c s in
    if x == c then some ([], s) else elim rest [ none ↦ none | some (a, b) ↦ some (x ∷ a, b) ]

abbrev pub cookie_pair : Str → Str → Option Str
cookie_pair name kv = elim (split_once b'=' (trim kv)) [
  | none ↦ none
  | some (k, v) ↦ if str_eq k name then some v else none
]

unfoldable pub find_cookie : Str → List Str → Option Str
unfolding split_once str_eq
find_cookie name [] = none
find_cookie name (kv ∷ kvs) = elim (cookie_pair name kv) [
  | some v ↦ some v
  | none ↦ find_cookie name kvs
]

unfoldable pub cookie : Str → Str → Option Str
unfolding find_cookie split
cookie header name = find_cookie name (split (λ c. c == b';') header)

unfoldable pub eq_ignore_ascii_case : Str → Str → Bool
unfolding str_eq to_ascii_lowercase
eq_ignore_ascii_case a b = str_eq (to_ascii_lowercase a) (to_ascii_lowercase b)

unfoldable pub same_authority : Option Str → Str → Bool
unfolding eq_ignore_ascii_case split
same_authority none host = false
same_authority (some rest) host =
    let authority = first_piece (split ends_authority rest) in
    not (null authority)
    && not (any (λ c. c == b'@') authority)
    && eq_ignore_ascii_case authority (trim host)

unfoldable pub same_origin : Str → Str → List Str → Bool
unfolding same_authority strip_scheme trim_end_matches
same_origin origin host extra =
    let o = trim origin in
    if any (λ e. eq_ignore_ascii_case e (trim_end_matches (λ c. c == b'/') o)) extra
    then true
    else same_authority (strip_scheme o) host

-- The text of bytes that are drawn.
unfoldable pub random_hex : List ℕ → Str
unfolding hex
random_hex buf = hex buf

abbrev password_alphabet : Str
password_alphabet = txt "abcdefghjkmnpqrstuvwxyz23456789"

-- `ALPHABET[*b as usize % ALPHABET.len()]`.
unfoldable pub password_char : ℕ → Str
password_char b = take 1 (drop (b % 31) password_alphabet)

-- `chunks(4)`.
unfoldable pub chunks4 {ℓ} : {A : Type ℓ} → List A → List (List A)
chunks4 (a ∷ b ∷ c ∷ d ∷ s) = (a ∷ b ∷ c ∷ d ∷ []) ∷ chunks4 s
chunks4 [] = []
chunks4 s = s ∷ []

-- The password of a run, from 16 bytes that are drawn.
unfoldable pub random_password : List ℕ → Str
unfolding password_char chunks4 join
random_password buf = join (txt "-") (map (λ bs. join [] (map password_char bs)) (chunks4 buf))

random_password_runs : random_password (0 ∷ 1 ∷ 2 ∷ 3 ∷ 30 ∷ 31 ∷ 32 ∷ 255 ∷ []) ≡ txt "abcd-9abh"
unfolding random_password txt
random_password_runs = refl
