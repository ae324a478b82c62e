-- ===== src/Seb/Domains.antt =====
-- `normalize_domain` and its recursion.
use riscv_exam_computer.Base.{
  ℕ, suc, ◌≡◌, refl, sym, ap, ◌∙◌, subst, Bool, false, Option, none, some, List, [], ◌∷◌, ◌++◌,
  arith, any, ◌==◌, if◌then◌else◌, Bool-cases, Option-cases, inl, inr, Result, ok, err, ◌>>=◌, ◌>>◌,
  ok_or, map_err, refuse, Str, txt, trim, trim_start, trim_end, trim_end_matches, is_whitespace,
  starts_with, contains_str, split, rsplit_once, cons_head,
}
use riscv_exam_computer.Seb.{
  bare_domain, ends_authority, first_piece, authority_of, normal_host, rest_host, strip_scheme,
  strip_port, url_host_with, normalize_fuel, normalize_domain,
}

abbrev pub is_slash : ℕ → Bool
is_slash c = c == b'/'

-- No character of the text satisfies the test.
abbrev pub Free : (ℕ → Bool) → Str → Type 0
Free p s = any p s ≡ false

trim_start-Free : (p q : ℕ → Bool) (s : Str) → Free p s → Free p (trim_start q s)
unfolding trim_start
trim_start-Free p q [] h = refl
trim_start-Free p q (c ∷ s) h = ground (arith, trim_start-Free p q s)

trim_end_matches-Free : (p q : ℕ → Bool) (s : Str) → Free p s → Free p (trim_end_matches q s)
unfolding trim_end_matches
trim_end_matches-Free p q [] h = refl
trim_end_matches-Free p q (c ∷ s) h = ground (arith, trim_end_matches-Free p q s)

trim-Free : (p : ℕ → Bool) (s : Str) → Free p s → Free p (trim s)
unfolding trim trim_end
trim-Free p s h =
    trim_end_matches-Free p is_whitespace (trim_start is_whitespace s)
      (trim_start-Free p is_whitespace s h)

no_scheme : (s : Str) → Free is_slash s → contains_str s (txt "://") ≡ false
unfolding contains_str starts_with txt
no_scheme [] h = refl
no_scheme (x ∷ []) h = ground arith
no_scheme (x ∷ y ∷ s) h = ground (arith, no_scheme (y ∷ s))

cons_head-Free :
    (c : ℕ) (ss : List Str)
    → ends_authority c ≡ false
    → Free is_slash (first_piece ss)
    → Free is_slash (first_piece (cons_head c ss))
cons_head-Free c [] e h = ground arith
cons_head-Free c (t ∷ ss) e h = ground arith

authority-Free : (s : Str) → Free is_slash (authority_of s)
unfolding split
authority-Free [] = refl
authority-Free (c ∷ s) = elim (Bool-cases (ends_authority c)) [
  | inl e ↦ rw (e, split) refl
  | inr e ↦ rw (e, split) (cons_head-Free c (split ends_authority s) e (authority-Free s))
]

rsplit_once-Free :
    (c : ℕ) (s a b : Str) → Free is_slash s → rsplit_once c s ≡ some (a, b) → Free is_slash a
unfolding rsplit_once
rsplit_once-Free c [] a b h e = absurd (cc)
rsplit_once-Free c (x ∷ s) a b h e = elim (Option-cases (rsplit_once c s)) [
  | inr (ab, q) ↦
      let r = rw (q, rsplit_once) at e in
      let same : x ∷ ab.0 ≡ a = ground arith in
      let rest = rsplit_once-Free c s ab.0 ab.1 (ground arith) q in
      subst (Free is_slash) same (ground (arith, rest, h))
  | inl q ↦ ground arith
]

strip_port-Free : (s host : Str) → Free is_slash s → strip_port s ≡ ok host → Free is_slash host
unfolding strip_port
strip_port-Free s host h e = elim (Option-cases (rsplit_once b':' s)) [
  | inl q ↦
      let r = rw (q, strip_port) at e in let same : s ≡ host = cc in subst (Free is_slash) same h
  | inr ((a, port), q) ↦
      let r = rw (q, strip_port) at e in
      let same : a ≡ host = ground arith in
      subst (Free is_slash) same (rsplit_once-Free b':' s a port h q)
]

-- A text without a slash is normalized without a recursive call.
pub normalize_fuel-Free :
    (n : ℕ) (s : Str) → Free is_slash s → normalize_fuel (suc n) s ≡ bare_domain (trim s)
unfolding normalize_fuel
normalize_fuel-Free n s h = rw (no_scheme (trim s) (trim-Free is_slash s h)) refl

-- `url_host` uses its argument on texts without a slash only.
module _ (f g : Str → Result Str Str)
    (same : (host : Str) → Free is_slash host → f host ≡ g host) where
  port_host-Free :
      (r : Result Str Str)
      → ((host : Str) → r ≡ ok host → Free is_slash host)
      → (r >>= normal_host f) ≡ (r >>= normal_host g)
  port_host-Free (ok host) k =
      ap (map_err (λ e. txt "Start URL host: " ++ e)) (same host (k host refl))
  port_host-Free (err e) k = refl

  rest_host-Free : (rest : Str) → rest_host f rest ≡ rest_host g rest
  rest_host-Free rest =
      ap
        (λ z.
          refuse (any (λ c. c == b'@') (authority_of rest))
            (txt "Start URL must not contain a user name or password")
          >> z)
        (port_host-Free (strip_port (authority_of rest))
          (λ host. strip_port-Free (authority_of rest) host (authority-Free rest)))

  scheme_host-Free :
      (o : Option Str)
      → (ok_or o (txt "Start URL must begin with https://") >>= rest_host f)
        ≡ (ok_or o (txt "Start URL must begin with https://") >>= rest_host g)
  scheme_host-Free none = refl
  scheme_host-Free (some rest) = rest_host-Free rest

  url_host_with-Free : (url : Str) → url_host_with f url ≡ url_host_with g url
  unfolding url_host_with
  url_host_with-Free url = scheme_host-Free (strip_scheme (trim url))

-- The mutual recursion of `normalize_domain` and `url_host` ends after two calls: any more fuel
-- gives the same result on every input.
pub normalize_fuel-enough :
    (n : ℕ) (input : Str) → normalize_fuel (suc (suc n)) input ≡ normalize_domain input
unfolding normalize_domain normalize_fuel
normalize_fuel-enough n input =
    ap (λ z. if contains_str (trim input) (txt "://") then z else bare_domain (trim input))
      (url_host_with-Free (normalize_fuel (suc n)) (normalize_fuel 1)
        (λ host h. normalize_fuel-Free n host h ∙ sym (normalize_fuel-Free 0 host h)) (trim input))
