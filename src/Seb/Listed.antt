-- ===== src/Seb/Listed.antt =====
-- What `parse_domain_list` collects.
use riscv_exam_computer.Base.{
  ◌≤◌, ◌⊎◌, ◌≡◌, refl, subst, true, false, List, [], ◌∷◌, ◌++◌, arith, All, All-append, length,
  null, ltb, if◌then◌else◌, Bool-cases, inl, inr, ok, ◌>>=◌, >>=-eq-ok, refuse-eq-ok, Str, trim,
  split, str_eq, str_eq_refl, mem_str,
}
use riscv_exam_computer.Seb.{
  normalize_domain, is_list_separator, collect_domains, parse_domain_list, max_domains,
}

-- What a piece of the text puts into the list: blank ones nothing, others their domain.
abbrev pub IsTaken : List Str → Str → Type 0
IsTaken out raw =
    (null (trim raw) ≡ true) ⊎ ((d : Str) × (normalize_domain raw ≡ ok d) × (mem_str d out ≡ true))

mem_str-append : (d : Str) (xs ys : List Str) → mem_str d xs ≡ true → mem_str d (xs ++ ys) ≡ true
unfolding mem_str
mem_str-append d [] ys h = absurd (cc)
mem_str-append d (x ∷ xs) ys h = ground (arith, mem_str-append d xs ys)

mem_str-last : (d : Str) (xs : List Str) → mem_str d (xs ++ d ∷ []) ≡ true
unfolding mem_str
mem_str-last d [] = rw (str_eq_refl d) refl
mem_str-last d (x ∷ xs) = ground (arith, mem_str-last d xs)

-- No list has a domain twice: one that is put at the end is not there yet.
abbrev pub Distinct : List Str → Type 0
Distinct [] = Unit
Distinct (d ∷ ds) = All (λ x. str_eq d x ≡ false) ds × Distinct ds

append-Distinct :
    (d : Str) (xs : List Str) → mem_str d xs ≡ false → Distinct xs → Distinct (xs ++ d ∷ [])
unfolding mem_str
append-Distinct d [] m h = (tt, tt)
append-Distinct d (x ∷ xs) m (a, h) =
    let off : str_eq x d ≡ false = ground arith in
    let rest : mem_str d xs ≡ false = ground arith in
    (All-append (λ y. str_eq x y ≡ false) xs (d ∷ []) a (off, tt), append-Distinct d xs rest h)

unfoldable pub add_domain : List Str → Str → List Str
add_domain out d = if mem_str d out then out else out ++ d ∷ []

add_domain-Distinct : (out : List Str) (d : Str) → Distinct out → Distinct (add_domain out d)
unfolding add_domain
add_domain-Distinct out d h = elim (Bool-cases (mem_str d out)) [
  | inl e ↦ rw e h
  | inr e ↦ rw e (append-Distinct d out e h)
]

add_domain-mem : (out : List Str) (d : Str) → mem_str d (add_domain out d) ≡ true
unfolding add_domain
add_domain-mem out d = elim (Bool-cases (mem_str d out)) [
  | inl e ↦ rw (e, e) refl
  | inr e ↦ rw e (mem_str-last d out)
]

add_domain-keeps :
    (out : List Str) (d x : Str) → mem_str x out ≡ true → mem_str x (add_domain out d) ≡ true
unfolding add_domain
add_domain-keeps out d x h = elim (Bool-cases (mem_str d out)) [
  | inl e ↦ rw e h
  | inr e ↦ rw e (mem_str-append x out (d ∷ []) h)
]

pub collect_domains-step :
    (out : List Str) (raw : Str) (raws : List Str) (done : List Str)
    → null (trim raw) ≡ false
    → collect_domains out (raw ∷ raws) ≡ ok done
    → (d : Str) × (normalize_domain raw ≡ ok d)
      × (collect_domains (add_domain out d) raws ≡ ok done)
unfolding collect_domains add_domain
collect_domains-step out raw raws done full h =
    let g : (normalize_domain raw >>= λ d.
    collect_domains (if mem_str d out then out else out ++ d ∷ []) raws)
        ≡ ok done =
      rw (full, collect_domains) at h in
    >>=-eq-ok (normalize_domain raw) _ g

collect_domains-keeps :
    (out raws done : List Str) (x : Str)
    → collect_domains out raws ≡ ok done
    → mem_str x out ≡ true
    → mem_str x done ≡ true
unfolding collect_domains
collect_domains-keeps out [] done x h m =
    let same : out ≡ done = cc in subst (λ z. mem_str x z ≡ true) same m
collect_domains-keeps out (raw ∷ raws) done x h m = elim (Bool-cases (null (trim raw))) [
  | inl blank ↦ collect_domains-keeps out raws done x (rw blank at h) m
  | inr full ↦
      let (d, n, g) = collect_domains-step out raw raws done full h in
      collect_domains-keeps (add_domain out d) raws done x g (add_domain-keeps out d x m)
]

collect_domains-Distinct :
    (out raws done : List Str) → collect_domains out raws ≡ ok done → Distinct out → Distinct done
unfolding collect_domains
collect_domains-Distinct out [] done h s = let same : out ≡ done = cc in subst Distinct same s
collect_domains-Distinct out (raw ∷ raws) done h s = elim (Bool-cases (null (trim raw))) [
  | inl blank ↦ collect_domains-Distinct out raws done (rw blank at h) s
  | inr full ↦
      let (d, n, g) = collect_domains-step out raw raws done full h in
      collect_domains-Distinct (add_domain out d) raws done g (add_domain-Distinct out d s)
]

collect_domains-IsTaken :
    (out raws done : List Str) → collect_domains out raws ≡ ok done → All (IsTaken done) raws
unfolding collect_domains
collect_domains-IsTaken out [] done h = tt
collect_domains-IsTaken out (raw ∷ raws) done h = elim (Bool-cases (null (trim raw))) [
  | inl blank ↦ (inl blank, collect_domains-IsTaken out raws done (rw blank at h))
  | inr full ↦
      let (d, n, g) = collect_domains-step out raw raws done full h in
      (
        inr (d, n, collect_domains-keeps (add_domain out d) raws done d g (add_domain-mem out d)),
        collect_domains-IsTaken (add_domain out d) raws done g,
      )
]

-- A list of domains that is accepted has at most 64 of them and none twice, and every piece of the
-- text that is not blank is in it with its normal form.
pub parse_domain_list-IsTaken :
    (text : Str) (out : List Str)
    → parse_domain_list text ≡ ok out
    → (length out ≤ max_domains) × Distinct out × All (IsTaken out) (split is_list_separator text)
unfolding parse_domain_list
parse_domain_list-IsTaken text out h =
    let (done, c, h1) = >>=-eq-ok (collect_domains [] (split is_list_separator text)) _ h in
    let (few, h2) = refuse-eq-ok (ltb max_domains (length done)) _ _ h1 in
    let same : done ≡ out = cc in
    subst
      (λ z. (length z ≤ max_domains) × Distinct z × All (IsTaken z) (split is_list_separator text))
      same
      (
        ground arith,
        collect_domains-Distinct [] (split is_list_separator text) done c tt,
        collect_domains-IsTaken [] (split is_list_separator text) done c,
      )
