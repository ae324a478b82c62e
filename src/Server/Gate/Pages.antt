-- ===== src/Server/Gate/Pages.antt =====
-- The URLs of the gate page of an exam.
use riscv_exam_computer.Base.{
  ◌≡◌, ◌↔◌, ◌⊎◌, refl, sym, ap, ◌∙◌, true, ◌||◌, Option-cases, ◌==◌, ==_iff, some, [], ◌∷◌, ◌++◌,
  Bool-cases, inl, inr, null, Str, strip_prefix,
}
use riscv_exam_computer.Seb.{first_is}
use riscv_exam_computer.Server.Gate.{is_own_page}

-- The URL is the page at the base, without a query or with one.
abbrev pub IsPageAt : Str → Str → Type 0
IsPageAt base url = (url ≡ base) ⊎ ((query : Str) × (url ≡ base ++ b'?' ∷ query))

strip_prefix-append : (base rest : Str) → strip_prefix (base ++ rest) base ≡ some rest
unfolding strip_prefix
strip_prefix-append [] rest = refl
strip_prefix-append (c ∷ base) rest = rw ((==_iff c c).1 refl, strip_prefix-append base rest) refl

strip_prefix-eq-some :
    (url base rest : Str) → strip_prefix url base ≡ some rest → url ≡ base ++ rest
unfolding strip_prefix
strip_prefix-eq-some url [] rest h = cc
strip_prefix-eq-some [] (c ∷ base) rest h = absurd (cc)
strip_prefix-eq-some (d ∷ url) (c ∷ base) rest h = elim (Bool-cases (d == c)) [
  | inl e ↦
      let tail = strip_prefix-eq-some url base rest (rw e at h) in let head = (==_iff d c).0 e in cc
  | inr e ↦ let q = rw e at h in absurd (cc)
]

++-nil : (s : Str) → s ++ [] ≡ s
++-nil [] = refl
++-nil (c ∷ s) = ap (λ z. c ∷ z) (++-nil s)

IsPageAt-query :
    (rest base url : Str)
    → url ≡ base ++ rest
    → (null rest || first_is b'?' rest) ≡ true
    → IsPageAt base url
IsPageAt-query [] base url made h = inl (made ∙ ++-nil base)
IsPageAt-query (c ∷ rest) base url made h =
    let mark = (==_iff c b'?').0 h in inr (rest, made ∙ ap (λ x. base ++ x ∷ rest) mark)

pub is_own_page_iff : (base url : Str) → (is_own_page base url ≡ true) ↔ IsPageAt base url
unfolding is_own_page
is_own_page_iff base url = (
  λ h. elim (Option-cases (strip_prefix url base)) [
    | inl none_left ↦ let q = rw (is_own_page, none_left) at h in absurd (cc)
    | inr (rest, e) ↦
        IsPageAt-query rest base url (strip_prefix-eq-some url base rest e)
          (rw (is_own_page, e) at h)
  ],
  λ page. elim page [
    | inl same ↦
        let made : url ≡ base ++ [] = same ∙ sym (++-nil base) in
        rw (made, is_own_page, strip_prefix-append base []) refl
    | inr (query, made) ↦ rw (made, is_own_page, strip_prefix-append base (b'?' ∷ query)) refl
  ],
)
