-- ===== src/Seb/Normal.antt =====
-- The results of `normalize_domain`.
use riscv_exam_computer.Base.{
  ℕ, zero, suc, ◌≡◌, refl, sym, ap, ◌∙◌, subst, Bool, true, false, not, ◌&&◌, ◌||◌, List, [], ◌∷◌,
  ◌++◌, arith, all, any, null, ltb, ◌==◌, Bool-cases, inl, inr, Result, ok, err, ◌>>=◌, >>=-eq-ok,
  refuse-eq-ok, ok_or, map_err, Str, txt, str_eq, trim, trim_start, trim_end, trim_end_matches,
  is_whitespace, contains_str, split, to_ascii_lowercase, to_ascii_lower, is_ascii_alphanumeric,
  is_ascii_digit, utf8_len, cons_head,
}
use riscv_exam_computer.Seb.Domains.{normalize_fuel-Free}
use riscv_exam_computer.Seb.{
  is_dot, label_char, valid_label, trim_stars, bare_domain, authority_of, normal_host, rest_host,
  strip_scheme, strip_port, url_host_with, normalize_fuel, normalize_domain,
}

-- A domain name: short, of valid labels, and with a dot unless it is `localhost`.
pub record IsDomain (d : Str) : Type 0 where
  pub some_text : null d ≡ false
  pub short : ltb 253 (utf8_len d) ≡ false
  pub labels : all valid_label (split is_dot d) ≡ true
  pub dotted : (not (any is_dot d) && not (str_eq d (txt "localhost"))) ≡ false

abbrev trimmed : Str → Str
trimmed s = to_ascii_lowercase (trim_end_matches is_dot (trim_start is_dot (trim_stars s)))

checked : (s d : Str) → bare_domain s ≡ ok d → (trimmed s ≡ d) × IsDomain d
unfolding bare_domain
checked s d h =
    let x = trimmed s in
    let (n, h1) = refuse-eq-ok (null x) _ _ h in
    let (l, h2) = refuse-eq-ok (ltb 253 (utf8_len x)) _ _ h1 in
    let (v, h3) = refuse-eq-ok (not (all valid_label (split is_dot x))) _ _ h2 in
    let (o, h4) = refuse-eq-ok (not (any is_dot x) && not (str_eq x (txt "localhost"))) _ _ h3 in
    let same : x ≡ d = cc in
    let valid : all valid_label (split is_dot x) ≡ true = ground arith in
    (same, subst IsDomain same (record { some_text = n; short = l; labels = valid; dotted = o }))

map_err-eq-ok :
    {E F A : Type 0} (f : E → F) (r : Result E A) (a : A) → map_err f r ≡ ok a → r ≡ ok a
map_err-eq-ok f (ok x) a h = cc
map_err-eq-ok f (err e) a h = absurd (cc)

url_host_with-last :
    (f : Str → Result Str Str) (url d : Str)
    → url_host_with f url ≡ ok d
    → (host : Str) × (f host ≡ ok d)
unfolding url_host_with
url_host_with-last f url d h =
    let (rest, a, h1) =
      >>=-eq-ok (ok_or (strip_scheme (trim url)) (txt "Start URL must begin with https://"))
        (rest_host f) h in
    let (free, h2) =
      refuse-eq-ok (any (λ c. c == b'@') (authority_of rest))
        (txt "Start URL must not contain a user name or password")
        (strip_port (authority_of rest) >>= normal_host f) h1 in
    let (host, b, h3) = >>=-eq-ok (strip_port (authority_of rest)) (normal_host f) h2 in
    (host, map_err-eq-ok (λ e. txt "Start URL host: " ++ e) (f host) d h3)

-- Every result was the result of `bare_domain` on some text.
normalize_fuel-bare :
    (n : ℕ) (input d : Str) → normalize_fuel n input ≡ ok d → (s : Str) × (bare_domain s ≡ ok d)
unfolding normalize_fuel
normalize_fuel-bare zero input d h = absurd (cc)
normalize_fuel-bare (suc n) input d h = elim (Bool-cases (contains_str (trim input) (txt "://"))) [
  | inl e ↦
      let (host, q) = url_host_with-last (normalize_fuel n) (trim input) d (rw e at h) in
      normalize_fuel-bare n host d q
  | inr e ↦ (trim input, rw e at h)
]

abbrev domain_char : ℕ → Bool
domain_char c = label_char c || is_dot c

abbrev all_labels : List Str → Bool
all_labels ss = all (all label_char) ss

valid_label-chars : (l : Str) → valid_label l ≡ true → all label_char l ≡ true
unfolding valid_label
valid_label-chars l h = ground arith

valid-all_labels : (ss : List Str) → all valid_label ss ≡ true → all_labels ss ≡ true
valid-all_labels [] h = refl
valid-all_labels (s ∷ ss) h = elim (Bool-cases (valid_label s)) [
  | inl e ↦ ground (arith, valid_label-chars s e, valid-all_labels ss)
  | inr e ↦ absurd (ground arith)
]

split-chars : (s : Str) → all_labels (split is_dot s) ≡ true → all domain_char s ≡ true
unfolding split
split-chars [] h = refl
split-chars (c ∷ s) h = elim (Bool-cases (is_dot c)) [
  | inl e ↦
      let q : all_labels (split is_dot s) ≡ true = rw (e, split) at h in
      let rest = split-chars s q in ground arith
  | inr e ↦
      let q : all_labels (cons_head c (split is_dot s)) ≡ true = rw (e, split) at h in
      let (here, later) = head_labels (split is_dot s) q in
      let rest = split-chars s later in ground arith
]
  where
    head_labels :
        (ss : List Str)
        → all_labels (cons_head c ss) ≡ true
        → (label_char c ≡ true) × (all_labels ss ≡ true)
    head_labels [] h = ground arith
    head_labels (t ∷ ss) h = ground arith

-- Tests that no character of a domain name satisfies.
trim_start-none : (p : ℕ → Bool) (s : Str) → any p s ≡ false → trim_start p s ≡ s
unfolding trim_start
trim_start-none p [] h = refl
trim_start-none p (c ∷ s) h = ground arith

trim_end_matches-none : (p : ℕ → Bool) (s : Str) → any p s ≡ false → trim_end_matches p s ≡ s
unfolding trim_end_matches
trim_end_matches-none p [] h = refl
trim_end_matches-none p (c ∷ s) h = ground (arith, trim_end_matches-none p s)

not_white : (c : ℕ) → domain_char c ≡ true → is_whitespace c ≡ false
unfolding is_whitespace is_ascii_alphanumeric is_ascii_digit
not_white c h = ground arith

no_white : (s : Str) → all domain_char s ≡ true → any is_whitespace s ≡ false
no_white [] h = refl
no_white (c ∷ s) h = elim (Bool-cases (domain_char c)) [
  | inl e ↦ ground (arith, not_white c e, no_white s)
  | inr e ↦ absurd (ground arith)
]

not_slash : (c : ℕ) → domain_char c ≡ true → ((c == b'/') ≡ false) × ((c == b'*') ≡ false)
unfolding is_ascii_alphanumeric is_ascii_digit
not_slash c h = ground arith

no_slash : (s : Str) → all domain_char s ≡ true → any (λ c. c == b'/') s ≡ false
no_slash [] h = refl
no_slash (c ∷ s) h = elim (Bool-cases (domain_char c)) [
  | inl e ↦ ground (arith, (not_slash c e).0, no_slash s)
  | inr e ↦ absurd (ground arith)
]

trim_stars-plain : (s : Str) → all domain_char s ≡ true → trim_stars s ≡ s
unfolding trim_stars
trim_stars-plain [] h = refl
trim_stars-plain (a ∷ []) h = refl
trim_stars-plain (a ∷ b ∷ s) h = elim (Bool-cases (domain_char a)) [
  | inl e ↦ rw (not_slash a e).1 refl
  | inr e ↦ absurd (ground arith)
]

trim_start-domain : (s : Str) → all valid_label (split is_dot s) ≡ true → trim_start is_dot s ≡ s
unfolding trim_start split valid_label
trim_start-domain [] h = refl
trim_start-domain (c ∷ s) h = elim (Bool-cases (is_dot c)) [
  | inl e ↦ absurd (let q = rw (e, split) at h in cc)
  | inr e ↦ rw e refl
]

trim_end_matches-again :
    (p : ℕ → Bool) (s : Str) → trim_end_matches p (trim_end_matches p s) ≡ trim_end_matches p s
unfolding trim_end_matches
trim_end_matches-again p [] = refl
trim_end_matches-again p (c ∷ s) = elim (Bool-cases (p c && null (trim_end_matches p s))) [
  | inl e ↦ rw e refl
  | inr e ↦ rw e (rw (trim_end_matches, trim_end_matches-again p s, e) refl)
]

lower-lower : (c : ℕ) → to_ascii_lower (to_ascii_lower c) ≡ to_ascii_lower c
unfolding to_ascii_lower
lower-lower c = ground arith

lower-dot : (c : ℕ) → is_dot (to_ascii_lower c) ≡ is_dot c
unfolding to_ascii_lower
lower-dot c = ground arith

lowercase-again : (s : Str) → to_ascii_lowercase (to_ascii_lowercase s) ≡ to_ascii_lowercase s
unfolding to_ascii_lowercase
lowercase-again [] = refl
lowercase-again (c ∷ s) = rw (lower-lower c, lowercase-again s) refl

lowercase-null : (s : Str) → null (to_ascii_lowercase s) ≡ null s
unfolding to_ascii_lowercase
lowercase-null [] = refl
lowercase-null (c ∷ s) = refl

trim_end_matches-lowercase :
    (s : Str)
    → trim_end_matches is_dot (to_ascii_lowercase s)
      ≡ to_ascii_lowercase (trim_end_matches is_dot s)
unfolding to_ascii_lowercase trim_end_matches
trim_end_matches-lowercase [] = refl
trim_end_matches-lowercase (c ∷ s) =
    ground
      (arith, lower-dot c, trim_end_matches-lowercase s, lowercase-null (trim_end_matches is_dot s))

trim-none : (s : Str) → any is_whitespace s ≡ false → trim s ≡ s
unfolding trim trim_end
trim-none s h =
    ap (trim_end_matches is_whitespace) (trim_start-none is_whitespace s h)
    ∙ trim_end_matches-none is_whitespace s h

-- A domain name is its own normal form.
bare_domain-domain : (s d : Str) → bare_domain s ≡ ok d → bare_domain d ≡ ok d
unfolding bare_domain
bare_domain-domain s d h =
    let (same, c) = checked s d h in
    let chars = split-chars d (valid-all_labels (split is_dot d) c.labels) in
    let inner = trim_start is_dot (trim_stars s) in
    let ends : trim_end_matches is_dot d ≡ d =
      ap (trim_end_matches is_dot) (sym same)
      ∙ trim_end_matches-lowercase (trim_end_matches is_dot inner)
      ∙ ap to_ascii_lowercase (trim_end_matches-again is_dot inner)
      ∙ same in
    let lower : to_ascii_lowercase d ≡ d =
      ap to_ascii_lowercase (sym same) ∙ lowercase-again (trim_end_matches is_dot inner) ∙ same in
    rw
      (
        trim_stars-plain d chars,
        trim_start-domain d c.labels,
        ends,
        lower,
        c.some_text,
        c.short,
        c.labels,
        c.dotted,
      )
      refl

-- Every result of `normalize_domain` is a domain name of at most 253 bytes, and normalizing it
-- again gives it back.
pub normalize_domain-IsDomain :
    (input d : Str) → normalize_domain input ≡ ok d → IsDomain d × (normalize_domain d ≡ ok d)
unfolding normalize_domain
normalize_domain-IsDomain input d h =
    let (s, q) = normalize_fuel-bare 2 input d h in
    let (same, c) = checked s d q in
    let chars = split-chars d (valid-all_labels (split is_dot d) c.labels) in
    let white = no_white d chars in
    let plain : trim d ≡ d = trim-none d white in
    (
      c,
      normalize_fuel-Free 1 d (no_slash d chars) ∙ ap bare_domain plain ∙ bare_domain-domain s d q,
    )
