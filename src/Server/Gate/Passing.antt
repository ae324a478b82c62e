-- ===== src/Server/Gate/Passing.antt =====
-- Who gets past the gate.
use riscv_exam_computer.Base.{
  ℕ, ◌≡◌, ◌↔◌, refl, ◌∙◌, ◌&&◌, Option, some, ◌++◌, arith, if◌then◌else◌, Bool-cases, inl, inr,
  null, ok, Str, txt, utf8, trim, to_ascii_lowercase,
}
use riscv_exam_computer.Proto.{ExamPayload, start}
use riscv_exam_computer.SebFile.Values.{Ext}
use riscv_exam_computer.SebFile.Keys.{config_key_hash, verify_config_key_hash, without_fragment}
use riscv_exam_computer.SebFile.Keys.Comparison.{verify_config_key_hash_iff}
use riscv_exam_computer.Fleet.Model.{Exam}
use riscv_exam_computer.Fleet.Exams.{exam}
use riscv_exam_computer.Fleet.Enqueue.{payload_of}
use riscv_exam_computer.Server.State.{App}
use riscv_exam_computer.Server.Http.{gate_page}
use riscv_exam_computer.Server.Gate.{
  GateExam, gate_refused, gate_passed, is_own_page, check_form, gate_verify,
}
use riscv_exam_computer.Server.Gate.Pages.{IsPageAt, is_own_page_iff}
use riscv_exam_computer.Server.Gate.Starts.{gate_exam-payload_of}
use riscv_exam_computer.Server.Gate.Answers.{answers_iff}

refused_status :
    (a : App) (g : GateExam) (why : Str) (wall_ms : ℕ)
    → (gate_refused a g why wall_ms).1.status ≡ 403
unfolding gate_refused gate_page
refused_status a g why wall_ms = refl

passed_status :
    (g : GateExam) → (gate_passed g).status ≡ (if null g.spec.access_code then 303 else 200)
unfolding gate_passed gate_page
passed_status g = ground arith

module _ (ext : Ext) where
  -- The text is the hash of this URL and key, in any case and with space around it.
  abbrev pub IsKeyHash : Str → Str → Str → Type 0
  IsKeyHash url key text =
      utf8 (config_key_hash ext url key) ≡ utf8 (to_ascii_lowercase (trim text))

  check_form-status :
      (a : App) (id : Str) (g : GateExam) (url ck : Str) (wall_ms : ℕ)
      → (check_form ext a id g url ck wall_ms).1.status ≡ (
          if is_own_page (g.public ++ txt "/gate/" ++ id) url
            && verify_config_key_hash ext url g.config_key ck
          then (if null g.spec.access_code then 303 else 200)
          else 403)
  unfolding check_form
  check_form-status a id g url ck wall_ms =
      elim (Bool-cases (is_own_page (g.public ++ txt "/gate/" ++ id) url)) [
        | inr other ↦
            rw (check_form, other)
              (refused_status a g (txt "JS check for a different page") wall_ms)
        | inl own ↦ elim (Bool-cases (verify_config_key_hash ext url g.config_key ck)) [
          | inr wrong ↦
              rw (check_form, own, wrong)
                (refused_status a g (txt "wrong Config Key (JS API)") wall_ms)
          | inl right ↦ rw (check_form, own, right) (passed_status g)
        ]
      ]

  -- An exam whose start hands a key to the boards. The posted form opens it, with a redirect or with the
  -- page that shows its access code, exactly if the URL without its fragment is the exam's gate page at the
  -- public URL, with a query or without, and the text is the hash of this URL and of the key that the
  -- boards are given; in every other case, and only then, it is refused with 403.
  pub gate_verify-opens :
      (a : App) (id url ck public key : Str) (e : Exam) (p : ExamPayload) (wall_ms : ℕ)
      → exam a.fleet.exams id ≡ some e
      → a.fleet.public_url ≡ some public
      → payload_of ext a.fleet.public_url a.fleet.exams start (some id) ≡ ok (some p)
      → p.config_key ≡ some key
      → let status = (gate_verify ext a id url ck wall_ms).1.status in
        let page = without_fragment url in
        ((status ≡ (if null e.spec.access_code then 303 else 200))
          ↔ (IsPageAt (public ++ txt "/gate/" ++ id) page × IsKeyHash page key ck))
        × ((status ≡ 403)
            ↔ ¬ (IsPageAt (public ++ txt "/gate/" ++ id) page × IsKeyHash page key ck))
  unfolding gate_verify
  gate_verify-opens a id url ck public key e p wall_ms found on handed keyed =
      let there = gate_exam-payload_of ext a.fleet id public key e p found on handed keyed in
      let page = without_fragment url in
      let g : GateExam = record {
        config_key = key;
        spec = e.spec;
        name = e.name;
        public = public;
      } in
      let status : (gate_verify ext a id url ck wall_ms).1.status
          ≡ (check_form ext a id g page ck wall_ms).1.status =
        rw (gate_verify, there) refl in
      answers_iff (null e.spec.access_code) (is_own_page (public ++ txt "/gate/" ++ id) page)
        (verify_config_key_hash ext page key ck)
        (is_own_page_iff (public ++ txt "/gate/" ++ id) page)
        (verify_config_key_hash_iff ext page key ck)
        (status ∙ check_form-status a id g page ck wall_ms)

  -- The request has the header with the hash of this URL and key.
  abbrev pub HasHash : Option Str → Str → Str → Type 0
  HasHash header url key = (text : Str) × (header ≡ some text) × IsKeyHash url key text
