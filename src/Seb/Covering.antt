-- ===== src/Seb/Covering.antt =====
-- `covered` as an order, and what `effective_domains` keeps.
use riscv_exam_computer.Base.{
  ◌≡◌, ◌⊎◌, refl, sym, ap, ◌∙◌, subst, Bool, true, false, not, List, [], ◌∷◌, ◌++◌, arith, All,
  All-append, All-filter, any, filter, Bool-cases, inl, inr, ok, >>=-eq-ok, Str, str_eq, str_eq_iff,
  str_eq_refl, ends_with, mem_str,
}
use riscv_exam_computer.Seb.{
  ExamSpec, covered, keep_domain, keep_domains, normalize_all, url_host, effective_domains,
}

ends_with-append : (p t : Str) → ends_with (p ++ t) t ≡ true
unfolding ends_with
ends_with-append [] [] = rw (str_eq_refl []) refl
ends_with-append [] (x ∷ t) = rw (str_eq_refl (x ∷ t)) refl
ends_with-append (x ∷ p) t = ground (arith, ends_with-append p t)

ends_with-split : (s t : Str) → ends_with s t ≡ true → (p : Str) × (s ≡ p ++ t)
unfolding ends_with
ends_with-split [] t h = ([], (str_eq_iff [] t).0 h)
ends_with-split (x ∷ s) t h = elim (Bool-cases (str_eq (x ∷ s) t)) [
  | inl e ↦ ([], (str_eq_iff (x ∷ s) t).0 e)
  | inr e ↦
      let q : ends_with s t ≡ true = rw e at h in
      let (p, same) = ends_with-split s t q in (x ∷ p, ap (λ z. x ∷ z) same)
]

covered-cases : (a b : Str) → covered a b ≡ true → (a ≡ b) ⊎ ((p : Str) × (a ≡ p ++ b'.' ∷ b))
unfolding covered
covered-cases a b h = elim (Bool-cases (str_eq a b)) [
  | inl e ↦ inl ((str_eq_iff a b).0 e)
  | inr e ↦ inr (ends_with-split a (b'.' ∷ b) (rw e at h))
]

covered-below : (p b : Str) → covered (p ++ b'.' ∷ b) b ≡ true
unfolding covered
covered-below p b = rw (ends_with-append p (b'.' ∷ b)) (ground arith)

pub covered_refl : (d : Str) → covered d d ≡ true
unfolding covered
covered_refl d = rw (str_eq_refl d) refl

++-assoc : (xs ys zs : Str) → (xs ++ ys) ++ zs ≡ xs ++ (ys ++ zs)
++-assoc [] ys zs = refl
++-assoc (x ∷ xs) ys zs = ap (λ z. x ∷ z) (++-assoc xs ys zs)

-- A subdomain of a subdomain is a subdomain.
pub covered_trans : (a b c : Str) → covered a b ≡ true → covered b c ≡ true → covered a c ≡ true
covered_trans a b c h k = elim (covered-cases a b h) [
  | inl e ↦ ap (λ z. covered z c) e ∙ k
  | inr (p, e) ↦ elim (covered-cases b c k) [
    | inl f ↦ ap (λ z. covered z c) (e ∙ ap (λ z. p ++ b'.' ∷ z) f) ∙ covered-below p c
    | inr (q, f) ↦
        ap (λ z. covered z c)
          (e ∙ ap (λ z. p ++ b'.' ∷ z) f ∙ sym (++-assoc p (b'.' ∷ q) (b'.' ∷ c)))
        ∙ covered-below (p ++ b'.' ∷ q) c
  ]
]

-- One of the kept domains covers this one.
abbrev pub IsCovered : List Str → Str → Type 0
IsCovered out d = any (λ kept. covered d kept) out ≡ true

any-append-left : (p : Str → Bool) (xs ys : List Str) → any p xs ≡ true → any p (xs ++ ys) ≡ true
any-append-left p [] ys h = absurd (cc)
any-append-left p (x ∷ xs) ys h = ground (arith, any-append-left p xs ys)

any-append-last :
    (p : Str → Bool) (xs : List Str) (d : Str) → p d ≡ true → any p (xs ++ d ∷ []) ≡ true
any-append-last p [] d h = ground arith
any-append-last p (x ∷ xs) d h = ground (arith, any-append-last p xs d h)

-- What covered a domain either stays or is itself covered by the new one.
stays_covered :
    (x d : Str) (out : List Str)
    → IsCovered out x
    → IsCovered (filter (λ kept. not (covered kept d)) out ++ d ∷ []) x
stays_covered x d [] h = absurd (cc)
stays_covered x d (k ∷ out) h = elim (Bool-cases (covered x k)) [
  | inl e ↦ elim (Bool-cases (covered k d)) [
    | inl below ↦ rw below (
        any-append-last (λ kept. covered x kept) (filter (λ kept. not (covered kept d)) out) d
          (covered_trans x k d e below))
    | inr above ↦ rw (above, e) refl
  ]
  | inr e ↦
      let q : IsCovered out x = rw e at h in
      let rest = stays_covered x d out q in ground (arith, rest)
]

keep_domain-covers :
    (x d : Str) (out : List Str) → IsCovered out x → IsCovered (keep_domain out d) x
unfolding keep_domain
keep_domain-covers x d out h = elim (Bool-cases (any (λ kept. covered d kept) out)) [
  | inl e ↦ rw (e, keep_domain) h
  | inr e ↦ rw (e, keep_domain) (stays_covered x d out h)
]

keep_domain-covers_self : (d : Str) (out : List Str) → IsCovered (keep_domain out d) d
unfolding keep_domain
keep_domain-covers_self d out = elim (Bool-cases (any (λ kept. covered d kept) out)) [
  | inl e ↦ rw (e, keep_domain) e
  | inr e ↦
      rw (e, keep_domain)
        (any-append-last (λ kept. covered d kept) (filter (λ kept. not (covered kept d)) out) d
          (covered_refl d))
]

keep_domains-covers :
    (x : Str) (out ds : List Str) → IsCovered out x → IsCovered (keep_domains out ds) x
unfolding keep_domains
keep_domains-covers x out [] h = h
keep_domains-covers x out (d ∷ ds) h =
    keep_domains-covers x (keep_domain out d) ds (keep_domain-covers x d out h)

keep_domains-covers-All : (out ds : List Str) → All (IsCovered (keep_domains out ds)) ds
unfolding keep_domains
keep_domains-covers-All out [] = tt
keep_domains-covers-All out (d ∷ ds) = (
  keep_domains-covers d (keep_domain out d) ds (keep_domain-covers_self d out),
  keep_domains-covers-All (keep_domain out d) ds,
)

-- No domain of the list covers another one.
abbrev pub Apart : Str → Str → Type 0
Apart x y = (covered x y ≡ false) × (covered y x ≡ false)

abbrev pub IsAntichain : List Str → Type 0
IsAntichain [] = Unit
IsAntichain (x ∷ xs) = All (Apart x) xs × IsAntichain xs

filter-IsAntichain : (p : Str → Bool) (xs : List Str) → IsAntichain xs → IsAntichain (filter p xs)
filter-IsAntichain p [] h = tt
filter-IsAntichain p (x ∷ xs) (a, h) = elim (Bool-cases (p x)) [
  | inl e ↦ rw e (All-filter (Apart x) p xs a, filter-IsAntichain p xs h)
  | inr e ↦ rw e (filter-IsAntichain p xs h)
]

append-IsAntichain :
    (d : Str) (xs : List Str)
    → IsAntichain xs
    → All (λ x. Apart x d) xs
    → IsAntichain (xs ++ d ∷ [])
append-IsAntichain d [] h a = (tt, tt)
append-IsAntichain d (x ∷ xs) (b, h) (p, a) =
    (All-append (Apart x) xs (d ∷ []) b (p, tt), append-IsAntichain d xs h a)

filter-Apart :
    (d : Str) (xs : List Str)
    → any (λ kept. covered d kept) xs ≡ false
    → All (λ x. Apart x d) (filter (λ kept. not (covered kept d)) xs)
filter-Apart d [] h = tt
filter-Apart d (x ∷ xs) h = elim (Bool-cases (covered d x)) [
  | inl e ↦ absurd (ground arith)
  | inr e ↦
      let q : any (λ kept. covered d kept) xs ≡ false = rw e at h in
      elim (Bool-cases (covered x d)) [
        | inl below ↦ rw below (filter-Apart d xs q)
        | inr above ↦ rw above ((above, e), filter-Apart d xs q)
      ]
]

keep_domain-IsAntichain :
    (d : Str) (out : List Str) → IsAntichain out → IsAntichain (keep_domain out d)
unfolding keep_domain
keep_domain-IsAntichain d out h = elim (Bool-cases (any (λ kept. covered d kept) out)) [
  | inl e ↦ rw (e, keep_domain) h
  | inr e ↦
      let p : Str → Bool = λ kept. not (covered kept d) in
      rw (e, keep_domain)
        (append-IsAntichain d (filter p out) (filter-IsAntichain p out h) (filter-Apart d out e))
]

keep_domains-IsAntichain : (out ds : List Str) → IsAntichain out → IsAntichain (keep_domains out ds)
unfolding keep_domains
keep_domains-IsAntichain out [] h = h
keep_domains-IsAntichain out (d ∷ ds) h =
    keep_domains-IsAntichain (keep_domain out d) ds (keep_domain-IsAntichain d out h)

keep_domains-from :
    (P : Str → Type 0) (out ds : List Str) → All P out → All P ds → All P (keep_domains out ds)
unfolding keep_domains keep_domain
keep_domains-from P out [] h k = h
keep_domains-from P out (d ∷ ds) h (p, k) = elim (Bool-cases (any (λ kept. covered d kept) out)) [
  | inl e ↦ rw (e, keep_domain) (keep_domains-from P out ds h k)
  | inr e ↦
      rw (e, keep_domain)
        (keep_domains-from P (filter (λ kept. not (covered kept d)) out ++ d ∷ []) ds
          (All-append P (filter (λ kept. not (covered kept d)) out) (d ∷ [])
            (All-filter P (λ kept. not (covered kept d)) out h) (p, tt))
          k)
]

abbrev pub IsOneOf : List Str → Str → Type 0
IsOneOf ds d = mem_str d ds ≡ true

IsOneOf-weaken : (y : Str) (xs zs : List Str) → All (IsOneOf xs) zs → All (IsOneOf (y ∷ xs)) zs
unfolding mem_str
IsOneOf-weaken y xs [] h = tt
IsOneOf-weaken y xs (z ∷ zs) (p, h) = (rw p (ground arith), IsOneOf-weaken y xs zs h)

IsOneOf-self : (xs : List Str) → All (IsOneOf xs) xs
unfolding mem_str
IsOneOf-self [] = tt
IsOneOf-self (x ∷ xs) = (rw (str_eq_refl x) refl, IsOneOf-weaken x xs xs (IsOneOf-self xs))

-- The stages of a successful `effective_domains`.
pub record IsEffective (spec : ExamSpec) (out : List Str) : Type 0 where
  pub host : Str
  pub listed : List Str
  pub start : url_host spec.start_url ≡ ok host
  pub normal : normalize_all spec.allowed_domains ≡ ok listed
  pub given : All (IsOneOf (host ∷ listed)) out
  pub covers : All (IsCovered out) (host ∷ listed)
  pub apart : IsAntichain out

-- The effective domains of an exam are among the host of its start URL and the normal forms of its
-- listed domains, they cover all of these, and no one of them covers another.
pub effective_domains-IsEffective :
    (spec : ExamSpec) (out : List Str) → effective_domains spec ≡ ok out → IsEffective spec out
unfolding effective_domains
effective_domains-IsEffective spec out h =
    let (host, s, h1) = >>=-eq-ok (url_host spec.start_url) _ h in
    let (listed, n, h2) = >>=-eq-ok (normalize_all spec.allowed_domains) _ h1 in
    let same : keep_domains [] (host ∷ listed) ≡ out = cc in
    record {
      host = host;
      listed = listed;
      start = s;
      normal = n;
      given = subst (All (IsOneOf (host ∷ listed))) same (
          keep_domains-from (IsOneOf (host ∷ listed)) [] (host ∷ listed) tt
            (IsOneOf-self (host ∷ listed)));
      covers =
          subst (λ z. All (IsCovered z) (host ∷ listed)) same
            (keep_domains-covers-All [] (host ∷ listed));
      apart = subst IsAntichain same (keep_domains-IsAntichain [] (host ∷ listed) tt);
    }
