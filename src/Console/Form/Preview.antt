-- ===== src/Console/Form/Preview.antt =====
-- The sites that the preview shows, and those of the exam that the server creates.
use riscv_exam_computer.Base.{
  ℕ, ◌≡◌, refl, sym, ap, subst, ◌∙◌, List, [], ◌∷◌, ◌++◌, length, ltb, All, All-append, null,
  Bool-cases, inl, inr, ok, >>=-eq-ok, refuse-eq-ok, Str, trim, split, mem_str, Option, some, ok_or,
  utf8, txt, none, unwrap_or, Result,
}
use riscv_exam_computer.Seb.{
  ExamSpec, normalize_domain, normalize_all, collect_domains, parse_domain_list, is_list_separator,
  effective_domains, max_domains,
}
use riscv_exam_computer.Seb.Listed.{add_domain, collect_domains-step}
use riscv_exam_computer.Seb.Normal.{normalize_domain-IsDomain}
use riscv_exam_computer.SebFile.Values.{Ext, Entries, Value}
use riscv_exam_computer.SebFile.Hex.{from_hex}
use riscv_exam_computer.SebFile.Settings.Rules.{value_of, Allows, exam_settings-Allows}
use riscv_exam_computer.SebFile.Settings.{SebOptions, exam_settings, rule_values}
use riscv_exam_computer.SebFile.Keys.{config_key}
use riscv_exam_computer.Fleet.Model.{Exam, SebBuild}
use riscv_exam_computer.Fleet.Exams.{spec_of, seb_build, gate_url, salt_error}
use riscv_exam_computer.Fleet.Exams
use riscv_exam_computer.Fleet.Exams.Creation.{create_exam-IsCreated}
use riscv_exam_computer.Server.State.{App}
use riscv_exam_computer.Server.Api.{create_exam}
use riscv_exam_computer.Console.Form.{Form, spec, default_options, preview}

abbrev IsNormal : Str → Type 0
IsNormal d = normalize_domain d ≡ ok d

add_domain-IsNormal :
    (out : List Str) (d : Str) → All IsNormal out → IsNormal d → All IsNormal (add_domain out d)
unfolding add_domain
add_domain-IsNormal out d n e = elim (Bool-cases (mem_str d out)) [
  | inl h ↦ rw h n
  | inr h ↦ rw h (All-append IsNormal out (d ∷ []) n (e, tt))
]

collect_domains-IsNormal :
    (out raws r : List Str) → All IsNormal out → collect_domains out raws ≡ ok r → All IsNormal r
unfolding collect_domains
collect_domains-IsNormal out [] r n h = let same : out ≡ r = cc in subst (All IsNormal) same n
collect_domains-IsNormal out (raw ∷ raws) r n h = elim (Bool-cases (null (trim raw))) [
  | inl blank ↦ collect_domains-IsNormal out raws r n (rw blank at h)
  | inr full ↦
      let (d, e, g) = collect_domains-step out raw raws r full h in
      collect_domains-IsNormal (add_domain out d) raws r
        (add_domain-IsNormal out d n (normalize_domain-IsDomain raw d e).1) g
]

parse_domain_list-IsNormal :
    (text : Str) (out : List Str) → parse_domain_list text ≡ ok out → All IsNormal out
unfolding parse_domain_list
parse_domain_list-IsNormal text out h =
    let (done, c, h1) = >>=-eq-ok (collect_domains [] (split is_list_separator text)) _ h in
    let (few, h2) = refuse-eq-ok (ltb max_domains (length done)) _ _ h1 in
    let same : done ≡ out = cc in
    subst (All IsNormal) same (collect_domains-IsNormal [] (split is_list_separator text) done tt c)

normalize_all-IsNormal : (ds : List Str) → All IsNormal ds → normalize_all ds ≡ ok ds
unfolding normalize_all
normalize_all-IsNormal [] n = refl
normalize_all-IsNormal (d ∷ ds) (p, n) = rw (p, normalize_all-IsNormal ds n) refl

module _ (ext : Ext) where
  -- A preview is made of the parsed domains.
  preview-parts :
      (f : Form) (sites : List Str) (xml : Str)
      → preview ext f ≡ ok (sites, xml)
      → (allowed : List Str) × (parse_domain_list f.domains ≡ ok allowed)
        × (effective_domains (record {
          start_url = trim f.url;
          allowed_domains = allowed;
          allow_quit = f.quit;
          access_code = trim f.access_code;
        })
            ≡ ok sites)
  unfolding preview spec
  preview-parts f sites xml h =
      let (s, p, h1) = >>=-eq-ok (spec f) _ h in
      let (settings, q, h2) = >>=-eq-ok (exam_settings ext s default_options) _ h1 in
      let (shown, r, h3) = >>=-eq-ok (effective_domains s) _ h2 in
      let (allowed, t, h4) = >>=-eq-ok (parse_domain_list f.domains) _ p in
      let same : shown ≡ sites = cc in
      let made : record {
        start_url = trim f.url;
        allowed_domains = allowed;
        allow_quit = f.quit;
        access_code = trim f.access_code;
      }
          ≡ s =
        cc in
      (allowed, t, ap effective_domains made ∙ r ∙ ap ok same)

  -- What a build writes into the `.seb` of an exam with these sites.
  build-Allows :
      (public_url : Option Str) (e : Exam) (sites : List Str) (build : SebBuild)
      → effective_domains e.spec ≡ ok sites
      → seb_build ext public_url e ≡ ok build
      → (settings : Entries) × (build.xml ≡ ext.write_xml settings)
        × (domains : List Str) × (value_of (txt "URLFilterRules") settings
            ≡ some (Value.array (rule_values domains)))
        × Allows sites (gate_url public_url e.id) domains
  unfolding seb_build
  build-Allows public_url e sites build eff built =
      let (salt, p, h1) = >>=-eq-ok (ok_or (from_hex (utf8 e.seb_salt)) salt_error) _ built in
      let options : SebOptions = record {
        start_url_override = gate_url public_url e.id;
        exam_key_salt = salt;
        quit_password = none;
      } in
      let finish : Entries → Result Str SebBuild = λ x. ok (record {
        xml = ext.write_xml x;
        config_key = config_key ext x;
        start_url = unwrap_or (gate_url public_url e.id) e.spec.start_url;
      }) in
      let (settings, q, h2) = >>=-eq-ok (exam_settings ext e.spec options) finish h1 in
      let (domains, rules, allows) =
        exam_settings-Allows ext e.spec (gate_url public_url e.id) salt sites settings eff q in
      let written : SebBuild = record {
        xml = ext.write_xml settings;
        config_key = config_key ext settings;
        start_url = unwrap_or (gate_url public_url e.id) e.spec.start_url;
      } in
      let same : written ≡ build = cc in
      (settings, sym (ap (λ b. b.xml) same), domains, rules, allows)

  -- If the preview shows some sites and the server function creates an exam from the same form, then the
  -- exam that it adds has exactly these sites as its effective domains, and its `.seb`, which can be built,
  -- allows them and beyond them only the host of the gate, where there is one that they do not cover.
  pub created-preview :
      (f : Form) (sites : List Str) (xml : Str) (a : App) (id answer : Str) (salt : List ℕ)
      (wall_ms : ℕ)
      → preview ext f ≡ ok (sites, xml)
      → (create_exam ext a f.name f.url f.domains f.quit f.access_code id salt wall_ms).1
        ≡ ok answer
      → (e : Exam) × ((create_exam ext a f.name f.url f.domains f.quit f.access_code id salt
            wall_ms).0.fleet.exams
          ≡ a.fleet.exams ++ e ∷ [])
        × (e.id ≡ answer)
        × (effective_domains e.spec ≡ ok sites)
        × (build : SebBuild) × (seb_build ext a.fleet.public_url e ≡ ok build)
        × (settings : Entries) × (build.xml ≡ ext.write_xml settings)
        × (domains : List Str) × (value_of (txt "URLFilterRules") settings
            ≡ some (Value.array (rule_values domains)))
        × Allows sites (gate_url a.fleet.public_url e.id) domains
  unfolding create_exam
  created-preview f sites xml a id answer salt wall_ms shown made =
      let (allowed, parsed, eff) = preview-parts f sites xml shown in
      let asked : ExamSpec = record {
        start_url = f.url;
        allowed_domains = allowed;
        allow_quit = f.quit;
        access_code = f.access_code;
      } in
      let r = Exams.create_exam ext a.fleet id f.name asked salt wall_ms in
      let same : create_exam ext a f.name f.url f.domains f.quit f.access_code id salt wall_ms
          ≡ (record a { fleet = r.0 }, r.1) =
        rw (create_exam, parsed) refl in
      let accepted : r.1 ≡ ok answer = sym (ap (λ z. z.1) same) ∙ made in
      let c =
        create_exam-IsCreated ext a.fleet r.0 id f.name asked salt wall_ms answer
          (ap (λ z. (r.0, z)) accepted) in
      let normal =
        normalize_all-IsNormal allowed (parse_domain_list-IsNormal f.domains allowed parsed) in
      let listed : c.checked.domains ≡ allowed = cc (c.checked.normalized, normal) in
      let kept : effective_domains c.added.spec ≡ ok sites =
        ap (λ x. effective_domains x.spec) c.checked.made
        ∙ ap (λ ds. effective_domains (spec_of asked ds)) listed
        ∙ eff in
      let b = c.checked.buildable in
      let (settings, written, domains, rules, allows) =
        build-Allows a.fleet.public_url c.added sites b.build kept b.built in
      (
        c.added,
        ap (λ z. z.0.fleet.exams) same ∙ c.exams,
        ap (λ x. x.id) c.checked.made ∙ sym c.answered,
        kept,
        b.build,
        b.built,
        settings,
        written,
        domains,
        rules,
        allows,
      )
