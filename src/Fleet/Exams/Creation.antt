-- ===== src/Fleet/Exams/Creation.antt =====
-- What is known of an exam that was created.
use riscv_exam_computer.Base.{
  ℕ, ◌<◌, ◌≡◌, refl, sym, ap, subst, ◌∙◌, true, false, Option, none, some, List, [], ◌∷◌, ◌++◌,
  arith, length, null, inl, inr, ok, Result-cases, Str, txt, str_eq_iff, trim,
}
use riscv_exam_computer.Proto.{Json, ExamPayload, start}
use riscv_exam_computer.Seb.{ExamSpec, seb_config, normalize_all}
use riscv_exam_computer.SebFile.Values.{Ext}
use riscv_exam_computer.Fleet.Model.{Fleet, Exam, SebBuild, Actor, Level, max_exams}
use riscv_exam_computer.Fleet.Log.{log}
use riscv_exam_computer.Fleet.Log.Frame.{log-SameBut}
use riscv_exam_computer.SebFile.Container.{encode}
use riscv_exam_computer.Fleet.Enqueue.{payload_of, no_draw}
use riscv_exam_computer.Fleet.Exams.{
  exam, valid_name, valid_code, check_name, check_exam, spec_of, exam_of, seb_build, new_exam,
  create_exam,
}

check_name_lem :
    (exams : List Exam) (name : Str) (u : Unit {0})
    → check_name exams name ≡ ok u
    → (null name ≡ false) × (valid_name name ≡ true) × (length exams < max_exams)
unfolding check_name
check_name_lem exams name u h = ground arith

module _ (ext : Ext) where
  -- An exam whose settings can be built.
  pub record IsBuildable (public_url : Option Str) (e : Exam) : Type 0 where
    pub code : valid_code e.spec.access_code ≡ true
    pub config : Json
    pub configured : seb_config e.spec ≡ ok config
    pub build : SebBuild
    pub built : seb_build ext public_url e ≡ ok build

  check_exam-IsBuildable :
      (public_url : Option Str) (e : Exam) (u : Unit {0})
      → check_exam ext public_url e ≡ ok u
      → IsBuildable public_url e
  unfolding check_exam
  check_exam-IsBuildable public_url e u h = elim (Result-cases (seb_config e.spec)) [
    | inr (why, p) ↦ absurd (ground arith)
    | inl (config, p) ↦ elim (Result-cases (seb_build ext public_url e)) [
      | inr (why, q) ↦ absurd (ground arith)
      | inl (build, q) ↦ record {
        code = ground arith;
        config = config;
        configured = p;
        build = build;
        built = q;
      }
    ]
  ]

  pub record IsChecked (public_url : Option Str) (exams : List Exam) (id name : Str)
      (spec : ExamSpec) (salt : List ℕ) (wall_ms : ℕ) (e : Exam) : Type 0 where
    pub named : null (trim name) ≡ false
    pub valid : valid_name (trim name) ≡ true
    pub room : length exams < max_exams
    pub domains : List Str
    pub normalized : normalize_all spec.allowed_domains ≡ ok domains
    pub made : e ≡ exam_of id (trim name) (spec_of spec domains) salt wall_ms
    pub buildable : IsBuildable public_url e

  pub new_exam-IsChecked :
      (public_url : Option Str) (exams : List Exam) (id name : Str) (spec : ExamSpec)
      (salt : List ℕ) (wall_ms : ℕ) (e : Exam)
      → new_exam ext public_url exams id name spec salt wall_ms ≡ ok e
      → IsChecked public_url exams id name spec salt wall_ms e
  unfolding new_exam
  new_exam-IsChecked public_url exams id name spec salt wall_ms e h =
      elim (Result-cases (check_name exams (trim name))) [
        | inr (why, p) ↦ absurd (ground arith)
        | inl (u, p) ↦ elim (Result-cases (normalize_all spec.allowed_domains)) [
          | inr (why, q) ↦ absurd (ground arith)
          | inl (domains, q) ↦
              let made = exam_of id (trim name) (spec_of spec domains) salt wall_ms in
              elim (Result-cases (check_exam ext public_url made)) [
                | inr (why, r) ↦ absurd (ground arith)
                | inl (v, r) ↦
                    let same : made ≡ e = ground arith in
                    let facts = check_name_lem exams (trim name) u p in
                    record {
                      named = facts.0;
                      valid = facts.1;
                      room = facts.2;
                      domains = domains;
                      normalized = q;
                      made = sym same;
                      buildable =
                          subst (IsBuildable public_url) same
                            (check_exam-IsBuildable public_url made v r);
                    }
              ]
        ]
      ]

  -- A creation that succeeds.
  pub record IsCreated (f g : Fleet) (id name : Str) (spec : ExamSpec) (salt : List ℕ) (wall_ms : ℕ)
      (answer : Str) : Type 0 where
    pub added : Exam
    pub checked : IsChecked f.public_url f.exams id name spec salt wall_ms added
    pub exams : g.exams ≡ f.exams ++ added ∷ []
    pub boards : g.boards ≡ f.boards
    pub public_url : g.public_url ≡ f.public_url
    pub answered : answer ≡ id

  pub create_exam-IsCreated :
      (f g : Fleet) (id name : Str) (spec : ExamSpec) (salt : List ℕ) (wall_ms : ℕ) (answer : Str)
      → create_exam ext f id name spec salt wall_ms ≡ (g, ok answer)
      → IsCreated f g id name spec salt wall_ms answer
  unfolding create_exam
  create_exam-IsCreated f g id name spec salt wall_ms answer h =
      elim (Result-cases (new_exam ext f.public_url f.exams id name spec salt wall_ms)) [
        | inr (why, p) ↦ absurd (ground arith)
        | inl (e, p) ↦
            let f' = record f { exams = f.exams ++ e ∷ [] } in
            let text = txt "Exam created: " ++ trim name in
            let kept = log-SameBut f' wall_ms Actor.instructor Level.info none text in
            let same : log f' wall_ms Actor.instructor Level.info none text ≡ g = ground arith in
            record {
              added = e;
              checked = new_exam-IsChecked f.public_url f.exams id name spec salt wall_ms e p;
              exams = rw same at kept.exams;
              boards = rw same at kept.boards;
              public_url = rw same at kept.public_url;
              answered = ground arith;
            }
      ]

exam-append :
    (exams : List Exam) (e : Exam) (id : Str)
    → exam exams id ≡ none
    → e.id ≡ id
    → exam (exams ++ e ∷ []) id ≡ some e
unfolding exam
exam-append [] e id n same = ground (arith, str_eq_iff e.id id)
exam-append (x ∷ xs) e id n same = ground (arith, exam-append xs e id)

-- An exam that was created under a fresh, non-empty id can be started: the payload that a start
-- job carries is built without an error, and it is this exam's, under its trimmed name.
pub created_exam-starts :
    (ext : Ext) (f g : Fleet) (id name : Str) (spec : ExamSpec) (salt : List ℕ) (wall_ms : ℕ)
    (answer : Str)
    → create_exam ext f id name spec salt wall_ms ≡ (g, ok answer)
    → exam f.exams id ≡ none
    → null id ≡ false
    → (p : ExamPayload) × (payload_of ext g.public_url g.exams start (some answer) ≡ ok (some p))
      × (p.id ≡ id)
      × (p.name ≡ trim name)
unfolding payload_of
created_exam-starts ext f g id name spec salt wall_ms answer h fresh nonempty =
    let c = create_exam-IsCreated ext f g id name spec salt wall_ms answer h in
    let e = c.added in
    let b = c.checked.buildable in
    let same_id : e.id ≡ id = ap (λ (x : Exam). x.id) c.checked.made in
    let found : exam g.exams id ≡ some e =
      ap (λ es. exam es id) c.exams ∙ exam-append f.exams e id fresh same_id in
    let p : ExamPayload = record {
      id = e.id;
      name = e.name;
      config = b.config;
      seb = some (ext.base64 (encode ext no_draw b.build.xml none));
      config_key = some b.build.config_key;
    } in
    (
      p,
      rw (c.answered, nonempty, found, c.public_url, b.configured, b.built) refl,
      same_id,
      ap (λ (x : Exam). x.name) c.checked.made,
    )
