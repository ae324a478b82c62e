-- ===== src/Server/Gate/Starts.antt =====
-- The exams that the gate finds, and what a start hands to the boards.
use riscv_exam_computer.Base.{
  ◌≡◌, refl, sym, ap, ◌∙◌, not, Option, none, some, [], ◌∷◌, null, Result, ok, ◌>>=◌, >>=-eq-ok,
  ok_or, ok_or-eq-ok, opt_filter, Str, txt,
}
use riscv_exam_computer.Proto.{ExamPayload, start}
use riscv_exam_computer.Seb.{seb_config}
use riscv_exam_computer.SebFile.Values.{Ext}
use riscv_exam_computer.SebFile.Container.{encode}
use riscv_exam_computer.Proto.{Json}
use riscv_exam_computer.Fleet.Model.{Fleet, Exam, SebBuild}
use riscv_exam_computer.Fleet.Exams.{exam, seb_build}
use riscv_exam_computer.Fleet.Enqueue.{no_draw, payload_of}
use riscv_exam_computer.Server.Gate.{gate_exam}

asked :
    (id : Str) {out : Str}
    → ok_or (opt_filter (λ s. not (null s)) (some id)) (txt "Choose an exam to start") ≡ ok out
    → id ≡ out
asked [] h = absurd (cc)
asked (c ∷ id) h = cc

abbrev packed_key : Result Str (Option ExamPayload) → Option Str
packed_key (ok (some p)) = p.config_key
packed_key r = none

module _ (ext : Ext) where
  -- The gate finds an exam that can be started, with the key that a start hands to the boards.
  pub gate_exam-payload_of :
      (f : Fleet) (id public key : Str) (e : Exam) (p : ExamPayload)
      → exam f.exams id ≡ some e
      → f.public_url ≡ some public
      → payload_of ext f.public_url f.exams start (some id) ≡ ok (some p)
      → p.config_key ≡ some key
      → gate_exam ext f id
        ≡ ok (record { config_key = key; spec = e.spec; name = e.name; public = public })
  unfolding payload_of gate_exam
  gate_exam-payload_of f id public key e p found on h keyed =
      let (id', h0, h1) =
        >>=-eq-ok (ok_or (opt_filter (λ s. not (null s)) (some id)) (txt "Choose an exam to start"))
          _ h in
      let same = asked id h0 in
      let (e', g, h2) =
        >>=-eq-ok (ok_or (exam f.exams id') (txt "That exam no longer exists")) _ h1 in
      let pack : Json → SebBuild → Result Str (Option ExamPayload) = λ config build. ok (
        some (record {
          id = e'.id;
          name = e'.name;
          config = config;
          seb = some (ext.base64 (encode ext no_draw build.xml none));
          config_key = some build.config_key;
        })) in
      let (config, c, h3) =
        >>=-eq-ok (seb_config e'.spec) (λ x. seb_build ext f.public_url e' >>= pack x) h2 in
      let (build, b, h4) = >>=-eq-ok (seb_build ext f.public_url e') (pack config) h3 in
      let sent : some build.config_key ≡ p.config_key = ap packed_key h4 in
      let right : build.config_key ≡ key = cc in
      let there = ok_or-eq-ok (exam f.exams id') (txt "That exam no longer exists") g in
      let one : e' ≡ e = cc in
      let built : seb_build ext f.public_url e ≡ ok build =
        ap (seb_build ext f.public_url) (sym one) ∙ b in
      rw (gate_exam, found, on, built, right) refl
