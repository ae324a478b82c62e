-- ===== src/Fleet/Exams.antt =====
-- Exams: lookup, the build of their `.seb` settings, creation and deletion.
pub mod Creation
use riscv_exam_computer.Base.{
  ℕ, Bool, true, false, not, ◌&&◌, ◌||◌, Option, none, some, List, [], ◌∷◌, ◌++◌, ltb, leb,
  if◌then◌else◌, length, any, null, find, unwrap_or, opt_map, Result, ok, err, ◌>>=◌, ◌>>◌, refuse,
  ok_or, Str, txt, str_eq, trim, trim_end_matches, is_control, utf8, ◌==◌,
}
use riscv_exam_computer.Base.Decimal.{decimal}
use riscv_exam_computer.Seb.{ExamSpec, seb_config, normalize_all}
use riscv_exam_computer.SebFile.Values.{Ext}
use riscv_exam_computer.SebFile.Hex.{hex, from_hex}
use riscv_exam_computer.SebFile.Settings.{exam_settings}
use riscv_exam_computer.SebFile.Keys.{config_key}
use riscv_exam_computer.Fleet.Model.{
  Fleet, Exam, SebBuild, Actor, Level, max_exams, max_exam_name, max_access_code,
}
use riscv_exam_computer.Fleet.Log.{log}

unfoldable pub set_public_url : Fleet → Option Str → Fleet
set_public_url f url = record f {
  public_url = opt_map (λ u. trim_end_matches (λ c. c == b'/') u) url;
}

unfoldable pub gate_url : Option Str → Str → Option Str
gate_url public_url exam_id = opt_map (λ b. b ++ txt "/gate/" ++ exam_id) public_url

unfoldable pub exam : List Exam → Str → Option Exam
unfolding str_eq
exam exams id = find (λ e. str_eq e.id id) exams

abbrev pub salt_error : Str
salt_error = txt "corrupt exam salt"

-- `remove(position(…))`: the first exam with this id, and the others.
unfoldable pub take_exam : List Exam → Str → Option (Exam × List Exam)
unfolding str_eq
take_exam [] id = none
take_exam (e ∷ es) id =
    let rest = take_exam es id in
    if str_eq e.id id then some (e, es) else opt_map (λ r. (r.0, e ∷ r.1)) rest

unfoldable pub delete_exam : Fleet → Str → ℕ → Fleet × Result Str (Unit {0})
unfolding take_exam
delete_exam f id wall_ms = elim (take_exam f.exams id) [
  | none ↦ (f, err (txt "Unknown exam"))
  | some (e, rest) ↦ (
    log (record f { exams = rest }) wall_ms Actor.instructor Level.info none
        (txt "Exam deleted: " ++ e.name),
    ok tt,
  )
]

unfoldable pub valid_name : Str → Bool
unfolding is_control
valid_name name = leb (length name) max_exam_name && not (any is_control name)

unfoldable pub valid_code : Str → Bool
unfolding is_control
valid_code code = leb (length code) max_access_code && not (any is_control code)

-- The tests of `create_exam` before it normalises the domains.
unfoldable pub check_name : List Exam → Str → Result Str (Unit {0})
unfolding valid_name
check_name exams name = do
  refuse (null name) (txt "Give the exam a name")
  refuse (not (valid_name name))
      (txt "Exam names can be at most " ++ decimal max_exam_name ++ txt " characters")
  refuse (leb max_exams (length exams))
      (txt "At most " ++ decimal max_exams ++ txt " exams; delete old ones first")

abbrev pub spec_of : ExamSpec → List Str → ExamSpec
spec_of spec domains = record {
  start_url = trim spec.start_url;
  allowed_domains = domains;
  allow_quit = spec.allow_quit;
  access_code = trim spec.access_code;
}

abbrev pub exam_of : Str → Str → ExamSpec → List ℕ → ℕ → Exam
exam_of id name spec salt wall_ms = record {
  id = id;
  name = name;
  spec = spec;
  created_ms = wall_ms;
  seb_salt = hex salt;
}

module _ (ext : Ext) where
  unfoldable pub seb_build : Option Str → Exam → Result Str SebBuild
  unfolding gate_url exam_settings config_key
  seb_build public_url e = do
    salt ← ok_or (from_hex (utf8 e.seb_salt)) salt_error
    let override = gate_url public_url e.id
    settings ←
        exam_settings ext e.spec
          (record { start_url_override = override; exam_key_salt = salt; quit_password = none })
    ok (record {
      xml = ext.write_xml settings;
      config_key = config_key ext settings;
      start_url = unwrap_or override e.spec.start_url;
    })

  -- The tests on the exam itself.
  unfoldable pub check_exam : Option Str → Exam → Result Str (Unit {0})
  unfolding valid_code seb_config seb_build
  check_exam public_url e = do
    refuse (not (valid_code e.spec.access_code))
        (txt "Access codes can be at most " ++ decimal max_access_code ++ txt " characters")
    config ← seb_config e.spec
    build ← seb_build public_url e
    ok tt

  -- The checks of `create_exam` and the exam that it adds; `salt` is what `new_salt` draws.
  unfoldable pub new_exam :
      Option Str → List Exam → Str → Str → ExamSpec → List ℕ → ℕ → Result Str Exam
  unfolding check_name normalize_all check_exam
  new_exam public_url exams id name spec salt wall_ms = do
    check_name exams (trim name)
    domains ← normalize_all spec.allowed_domains
    let e = exam_of id (trim name) (spec_of spec domains) salt wall_ms
    check_exam public_url e
    ok e

  unfoldable pub create_exam : Fleet → Str → Str → ExamSpec → List ℕ → ℕ → Fleet × Result Str Str
  unfolding new_exam
  create_exam f id name spec salt wall_ms =
      elim (new_exam f.public_url f.exams id name spec salt wall_ms) [
        | err e ↦ (f, err e)
        | ok e ↦ (
          log (record f { exams = f.exams ++ e ∷ [] }) wall_ms Actor.instructor Level.info none
              (txt "Exam created: " ++ trim name),
          ok id,
        )
      ]
