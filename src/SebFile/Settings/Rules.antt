-- ===== src/SebFile/Settings/Rules.antt =====
-- The filter rules that settings come with, and the domains that they are made of.
use riscv_exam_computer.Base.{
  ℕ, ◌≡◌, refl, sym, subst, ap, ◌∙◌, Bool, true, false, ◌||◌, Option, none, some, List, [], ◌∷◌,
  ◌++◌, arith, any, if◌then◌else◌, Bool-cases, inl, inr, ok, ◌>>=◌, >>=-eq-ok, Str, txt, str_eq,
  str_eq_iff, ends_with,
}
use riscv_exam_computer.Seb.{ExamSpec, url_host, normalize_domain, effective_domains}
use riscv_exam_computer.SebFile.Values.{Value, Entries, Ext}
use riscv_exam_computer.SebFile.Json.{put}
use riscv_exam_computer.SebFile.Settings.{
  rule_values, with_override, handshake_entries, lockdown_entries, window_entries, exam_settings,
}

-- `Dictionary::get`.
pub value_of : Str → Entries → Option Value
value_of k Entries.end = none
value_of k (Entries.entry j v d) = if str_eq j k then some v else value_of k d

value_of-put :
    (k j : Str) (v : Value) (d : Entries)
    → value_of k (put j v d) ≡ (if str_eq j k then some v else value_of k d)
unfolding value_of put
value_of-put k j v Entries.end = refl
value_of-put k j v (Entries.entry i w d) =
    ground (arith, str_eq_iff i j, str_eq_iff i k, str_eq_iff j k, value_of-put k j v d)

put_other :
    (k j : Str) (v : Value) (d : Entries)
    → str_eq j k ≡ false
    → value_of k (put j v d) ≡ value_of k d
put_other k j v d h = value_of-put k j v d ∙ rw h refl

module _ (ext : Ext) where
  rules_lem :
      (domains : List Str) (quit : Bool) (start : Str) (salt : List ℕ)
      → value_of
          (txt "URLFilterRules")
          (window_entries (lockdown_entries ext domains quit none (handshake_entries start salt)))
        ≡ some (Value.array (rule_values domains))
  unfolding window_entries lockdown_entries txt str_eq
  rules_lem domains quit start salt = simp value_of-put

abbrev is_covered : Str → List Str → Bool
is_covered host sites = any (λ d. str_eq host d || ends_with host (b'.' ∷ d)) sites

-- The domains that are allowed beside some sites: none without a start URL of its own or with one whose
-- host the sites cover, else this host.
pub data Allows (sites : List Str) : Option Str → List Str → Type 0 where
  ungated : Allows sites none sites
  covered :
      (u host : Str)
      → url_host u ≡ ok host
      → is_covered host sites ≡ true
      → Allows sites (some u) sites
  added :
      (u host d : Str)
      → url_host u ≡ ok host
      → is_covered host sites ≡ false
      → normalize_domain host ≡ ok d
      → Allows sites (some u) (sites ++ d ∷ [])

with_override-Allows :
    (spec : ExamSpec) (o : Option Str) (sites : List Str) (r : List Str × Str)
    → with_override spec o sites ≡ ok r
    → Allows sites o r.0
unfolding with_override
with_override-Allows spec none sites r h =
    let same : sites ≡ r.0 = cc in subst (Allows sites none) same Allows.ungated
with_override-Allows spec (some u) sites r h =
    let (host, found, h1) = >>=-eq-ok (url_host u) _ h in
    elim (Bool-cases (is_covered host sites)) [
      | inl e ↦
          let q = rw e at h1 in
          let same : sites ≡ r.0 = cc in
          subst (Allows sites (some u)) same (Allows.covered u host found e)
      | inr e ↦
          let q = rw e at h1 in
          let (all_domains, made, h2) =
            >>=-eq-ok (normalize_domain host >>= (λ d. ok (sites ++ d ∷ []))) _ q in
          let (d, normal, h3) = >>=-eq-ok (normalize_domain host) _ made in
          let same : sites ++ d ∷ [] ≡ r.0 = cc in
          subst (Allows sites (some u)) same (Allows.added u host d found e normal)
    ]

module _ (ext : Ext) where
  -- The settings without a quit password allow the effective domains, and for a start URL of its own the
  -- host of that one.
  pub exam_settings-Allows :
      (spec : ExamSpec) (o : Option Str) (salt : List ℕ) (sites : List Str) (settings : Entries)
      → effective_domains spec ≡ ok sites
      → exam_settings ext spec
          (record { start_url_override = o; exam_key_salt = salt; quit_password = none })
        ≡ ok settings
      → (domains : List Str) × (value_of (txt "URLFilterRules") settings
          ≡ some (Value.array (rule_values domains)))
        × Allows sites o domains
  unfolding exam_settings
  exam_settings-Allows spec o salt sites settings eff made =
      let (domains, e, h1) = >>=-eq-ok (effective_domains spec) _ made in
      let (chosen, f, h2) = >>=-eq-ok (with_override spec o domains) _ h1 in
      let same : domains ≡ sites = cc in
      let built : window_entries
            (lockdown_entries ext chosen.0 spec.allow_quit none (handshake_entries chosen.1 salt))
          ≡ settings =
        cc in
      (
        chosen.0,
        ap (value_of (txt "URLFilterRules")) (sym built)
            ∙ rules_lem ext chosen.0 spec.allow_quit chosen.1 salt,
        subst (λ s. Allows s o chosen.0) same (with_override-Allows spec o domains chosen f),
      )
