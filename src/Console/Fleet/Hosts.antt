-- ===== src/Console/Fleet/Hosts.antt =====
-- The hosts that the page sends, as the server reads them.
use mathlib.Core.List.{append_assoc}
use riscv_exam_computer.Base.{
  ℕ, ◌≡◌, refl, ap, ◌∙◌, Bool, true, false, not, ◌||◌, List, [], ◌∷◌, arith, All, all, filter, map,
  null, ◌==◌, &&-eq-true, Str, split, join, trim, is_whitespace, is_ascii_alphanumeric,
  is_ascii_digit, utf8_len,
}
use riscv_exam_computer.Base.Pieces.{Lacks, split-Lacks, split-first, trim-Lacks}
use riscv_exam_computer.Base.OrderedMap.{keys}
use riscv_exam_computer.Fleet.Model.{valid_host}
use riscv_exam_computer.Server.Api.{parse_hosts}
use riscv_exam_computer.Console.Fleet.{Page, action_hosts}

-- The characters of a host name are neither commas nor white space.
abbrev is_host_char : ℕ → Bool
is_host_char b = is_ascii_alphanumeric b || b == b'-' || b == b'.' || b == b'_'

host_char-plain :
    (c : ℕ) → is_host_char c ≡ true → ((c == b',') ≡ false) × (is_whitespace c ≡ false)
unfolding is_ascii_alphanumeric is_ascii_digit is_whitespace
host_char-plain c h = ground arith

abbrev is_comma : ℕ → Bool
is_comma c = c == b','

host_chars-Lacks : (h : Str) → all is_host_char h ≡ true → Lacks is_comma h × Lacks is_whitespace h
host_chars-Lacks [] v = (tt, tt)
host_chars-Lacks (c ∷ h) v =
    let (first, rest) = &&-eq-true (is_host_char c) (all is_host_char h) v in
    let (comma, blank) = host_char-plain c first in
    let (commas, blanks) = host_chars-Lacks h rest in ((comma, commas), (blank, blanks))

abbrev pub IsHostName : Str → Type 0
IsHostName h = valid_host h ≡ true

host_name-Lacks :
    (h : Str) → IsHostName h → Lacks is_comma h × Lacks is_whitespace h × (null h ≡ false)
unfolding valid_host utf8_len
host_name-Lacks [] v = absurd (cc)
host_name-Lacks (c ∷ h) v =
    let (most, ends) = &&-eq-true _ _ v in
    let (sized, chars) = &&-eq-true _ _ most in
    let (commas, blanks) = host_chars-Lacks (c ∷ h) chars in (commas, blanks, refl)

parse_hosts-cons :
    (h : Str) (hs : List Str)
    → IsHostName h
    → filter (λ h. not (null h)) (map trim (h ∷ hs)) ≡ h ∷ filter (λ h. not (null h)) (map trim hs)
parse_hosts-cons h hs v =
    let (commas, blanks, full) = host_name-Lacks h v in rw (trim-Lacks h blanks, full) refl

-- The hosts of a row of host names, joined by commas, are read as this row.
parse_hosts-join : (hs : List Str) → All IsHostName hs → parse_hosts (join (b',' ∷ []) hs) ≡ hs
unfolding parse_hosts join split trim
parse_hosts-join [] v = refl
parse_hosts-join (h ∷ []) (v, t) =
    rw (split-Lacks is_comma h (host_name-Lacks h v).0) (parse_hosts-cons h [] v)
parse_hosts-join (h ∷ g ∷ hs) (v, vs) =
    let rest = join (b',' ∷ []) (g ∷ hs) in
    let e = split-first is_comma h b',' rest (host_name-Lacks h v).0 refl in
    ap parse_hosts (append_assoc h (b',' ∷ []) rest)
    ∙ ap (λ ps. filter (λ h. not (null h)) (map trim ps)) e
    ∙ parse_hosts-cons h (split is_comma rest) v
    ∙ ap (λ r. h ∷ r) (parse_hosts-join (g ∷ hs) vs)

-- The text that an action of the page sends names, for the server that reads it, the selected hosts in
-- their order and no other, if all of them are valid host names.
pub parse_hosts-action_hosts :
    (p : Page) → All IsHostName (keys p.selected) → parse_hosts (action_hosts p) ≡ keys p.selected
unfolding action_hosts
parse_hosts-action_hosts p v = parse_hosts-join (keys p.selected) v
