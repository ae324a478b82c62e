-- ===== src/Console/Form.antt =====
-- app/exams.rs: the form for a new exam, its preview, and what a reply does to it.
pub mod Preview
use riscv_exam_computer.Base.{
  ℕ, ◌≡◌, refl, Bool, true, false, not, ◌&&◌, ◌||◌, Option, none, some, List, [], ◌∷◌, ◌++◌, any,
  map, null, if◌then◌else◌, ◌==◌, Result, ok, err, ◌>>=◌, is_ok, Str, txt, str_eq, trim, split,
  ends_with,
}
use riscv_exam_computer.Seb.{ExamSpec, url_host, parse_domain_list, effective_domains}
use riscv_exam_computer.SebFile.Values.{Ext}
use riscv_exam_computer.SebFile.Settings.{SebOptions, exam_settings}

-- The signals of `ExamsBody`; `result` is the last reply, without the text for a success.
pub record Form : Type 0 where
  pub name : Str
  pub url : Str
  pub domains : Str
  pub quit : Bool
  pub access_code : Str
  pub touched : Bool
  pub result : Option (Result Str (Unit {0}))

unfoldable pub empty_form : Form
unfolding txt
empty_form = record {
  name = [];
  url = [];
  domains = [];
  quit = false;
  access_code = [];
  touched = false;
  result = none;
}

abbrev error_of {ℓ} : {A : Type ℓ} → Result Str A → Option Str
error_of (ok a) = none
error_of (err e) = some e

unfoldable pub url_error : Form → Option Str
unfolding trim url_host
url_error f = if null (trim f.url) then none else error_of (url_host f.url)

unfoldable pub domain_error : Form → Option Str
unfolding parse_domain_list
domain_error f = error_of (parse_domain_list f.domains)

unfoldable pub spec : Form → Result Str ExamSpec
unfolding parse_domain_list trim
spec f = do
  allowed ← parse_domain_list f.domains
  ok (record {
    start_url = trim f.url;
    allowed_domains = allowed;
    allow_quit = f.quit;
    access_code = trim f.access_code;
  })

-- `SebOptions::default()`.
abbrev pub default_options : SebOptions
default_options = record { start_url_override = none; exam_key_salt = []; quit_password = none }

-- What the server function is called with.
pub record Request : Type 0 where
  pub name : Str
  pub url : Str
  pub domains : Str
  pub quit : Bool
  pub access_code : Str

module _ (ext : Ext) where
  -- The allowed sites and the settings file.
  unfoldable pub preview : Form → Result Str (List Str × Str)
  unfolding spec exam_settings effective_domains
  preview f = do
    s ← spec f
    settings ← exam_settings ext s default_options
    sites ← effective_domains s
    ok (sites, ext.write_xml settings)

  -- The submit button: the form is marked, and sent if nothing is missing or wrong.
  unfoldable pub submit : Form → Form × Option Request
  unfolding preview trim
  submit f = (
    record f { touched = true },
    if null (trim f.name) || null (trim f.url) || not (is_ok (preview f))
        then none
        else some (record {
          name = f.name;
          url = f.url;
          domains = f.domains;
          quit = f.quit;
          access_code = f.access_code;
        }),
  )

-- The reply: a success empties the form.
unfoldable pub reply : Result Str Str → Form → Form
unfolding empty_form
reply (ok id) f = record empty_form { result = some (ok tt) }
reply (err e) f = record f { result = some (err e) }

-- `str::lines`: what stands between line feeds, without a carriage return at its end, and without an
-- empty last piece.
abbrev strip_cr : Str → Str
strip_cr [] = []
strip_cr (c ∷ []) = if c == 13 then [] else c ∷ []
strip_cr (c ∷ d ∷ s) = c ∷ strip_cr (d ∷ s)

abbrev drop_empty_last : List Str → List Str
drop_empty_last [] = []
drop_empty_last (l ∷ []) = if null l then [] else l ∷ []
drop_empty_last (l ∷ m ∷ ls) = l ∷ drop_empty_last (m ∷ ls)

unfoldable pub lines : Str → List Str
unfolding split
lines s = map strip_cr (drop_empty_last (split (λ c. c == 10) s))

-- A suggested domain goes on a line of its own, unless it is there.
unfoldable pub add_domain : Str → Str → Str
unfolding lines trim str_eq ends_with
add_domain d text =
    if any (λ l. str_eq (trim l) d) (lines text)
    then text
    else (if null text || ends_with text (10 ∷ []) then text else text ++ 10 ∷ []) ++ d ++ 10 ∷ []

add_domain_runs :
    add_domain (txt "ufl.edu") (add_domain (txt "a.b") (add_domain (txt "ufl.edu") (txt "x.y")))
    ≡ txt "x.y\nufl.edu\na.b\n"
unfolding add_domain txt
add_domain_runs = refl
