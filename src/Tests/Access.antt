-- ===== src/Tests/Access.antt =====
-- Logins, sessions, the guard and the gate.
use riscv_exam_computer.Base.{
  ℕ, ◌+◌, ◌-◌, ◌≤◌, ◌≡◌, ◌↔◌, refl, Bool, true, false, not, ◌&&◌, ◌||◌, Option, none, some, List,
  [], ◌∷◌, ◌++◌, arith, length, null, ltb, Result, ok, err, Str, txt, str_eq, opt_str_eq, unwrap_or,
  if◌then◌else◌,
}
use riscv_exam_computer.SebFile.Keys.{without_fragment}
use riscv_exam_computer.Fleet.Model.{Exam, from_secs}
use riscv_exam_computer.Auth.Digests.{Auth, rate_limited, digest}
use riscv_exam_computer.Auth.Limiter.Strikes.{Attempt, after, strikes, strikes-rate_limited}
use riscv_exam_computer.Auth.Sessions.{login, logout, session_valid, session_ttl}
use riscv_exam_computer.Auth.Sessions.Laws.{logout-session_valid}
use riscv_exam_computer.Server.State.{App, CookieSecure}
use riscv_exam_computer.Server.Http.{Method, Request, Response, Body}
use riscv_exam_computer.Auth.Origin.{random_hex}
use riscv_exam_computer.Server.Login
use riscv_exam_computer.Server.Login.Cookies.{login-signed_in}
use riscv_exam_computer.Server.Guard.{signed_in, guard, checks_origin, origin_allowed}
use riscv_exam_computer.Server.Guard.Access.{guard-refused}
use riscv_exam_computer.Server.Boards.{exam_get, exam_put, etag_of, machines}
use riscv_exam_computer.Server.Boards.Blob.{exam_get-exam_put}
use riscv_exam_computer.Server.Gate.{gate_verify}
use riscv_exam_computer.Server.Gate.Pages.{IsPageAt}
use riscv_exam_computer.Fleet.Enqueue.{payload_of}
use riscv_exam_computer.Proto.{ExamPayload, Json, start}
use riscv_exam_computer.Server.Gate.Passing.{IsKeyHash, gate_verify-opens}
use riscv_exam_computer.Tests.Data.{plain_ext, waiting_fleet, exam_spec}

abbrev auth : Auth
auth = record {
  password = txt "pw";
  agent_token = none;
  sessions = [];
  limiter = record { per_client = []; global = [] };
}

abbrev wrong_at : ℕ → Attempt
wrong_at s = record { client = txt "c"; password = txt "no"; at = from_secs s; token = txt "t" }

abbrev five : List Attempt
five = wrong_at 1 ∷ wrong_at 2 ∷ wrong_at 3 ∷ wrong_at 4 ∷ wrong_at 5 ∷ []

five-strikes : strikes plain_ext (txt "c") 0 auth five ≡ 5
unfolding strikes login txt digest riscv_exam_computer.Base.utf8
five-strikes = refl

strikes-rate_limited_example :
    (login plain_ext (after plain_ext auth five) (txt "c") (txt "pw") (from_secs 60) (txt "t")).1
    ≡ err rate_limited
strikes-rate_limited_example =
    strikes-rate_limited plain_ext (txt "c") auth five (txt "pw") (from_secs 60) (txt "t")
      (
        (omega arith, omega arith),
        (
          (omega arith, omega arith),
          (
            (omega arith, omega arith),
            ((omega arith, omega arith), ((omega arith, omega arith), tt)),
          ),
        ),
      )
      (omega (arith, five-strikes))

abbrev token : Str
token = txt "0123456789abcdef0123456789abcdef0123456789abcdef0123456789abcdef"

abbrev signed_in_auth : Auth
signed_in_auth = (login plain_ext auth (txt "c") (txt "pw") 5 token).0

logout-session_valid_example :
    session_valid plain_ext (logout plain_ext signed_in_auth token) token 9 ≡ (
      if str_eq (digest plain_ext token) (digest plain_ext token)
      then false
      else session_valid plain_ext signed_in_auth token 9)
logout-session_valid_example = logout-session_valid plain_ext signed_in_auth token token 9

abbrev pub app : App
app = record {
  fleet = waiting_fleet;
  auth = auth;
  has_store = true;
  exam_file = none;
  allowed_origins = [];
  cookie_secure = CookieSecure.auto;
}

abbrev request : Method → Str → List (Str × Option Str) → Request
request method path headers = record {
  method = method;
  path = path;
  path_and_query = some path;
  headers = headers;
  peer = none;
}

abbrev stranger : Request
stranger = request Method.get (txt "/machines") []

abbrev listing : App → App × Response
listing a = (a, machines a 0)

guard-refused_example :
    ((guard plain_ext app stranger 0 listing).0 ≡ app)
    × ((guard plain_ext app stranger 0 listing).1.status ≡ (
        if checks_origin stranger && not (origin_allowed app.allowed_origins stranger.headers)
        then 403
        else 303))
unfolding guard txt
guard-refused_example = guard-refused plain_ext app stranger 0 listing refl refl

-- A poll with the tag of the file that a poll before the second upload was given.
abbrev poll : Request
poll =
    request Method.get (txt "/api/exam")
      ((txt "if-none-match", some (etag_of plain_ext (1 ∷ 2 ∷ []))) ∷ [])

exam_get-exam_put_example :
    let res =
      exam_get (exam_put plain_ext (exam_put plain_ext app (1 ∷ 2 ∷ [])).0 (3 ∷ [])).0 poll in
    let cached = str_eq (plain_ext.sha256 (1 ∷ 2 ∷ [])) (plain_ext.sha256 (3 ∷ [])) in
    (res.status ≡ (if cached then 304 else 200))
    × (res.body ≡ (if cached then Body.empty else Body.raw (3 ∷ [])))
unfolding riscv_exam_computer.Server.Http.header txt exam_get exam_put
    riscv_exam_computer.Server.Http.set_header
exam_get-exam_put_example =
    exam_get-exam_put plain_ext app (1 ∷ 2 ∷ []) (3 ∷ []) stranger poll (ground arith)
      (ground arith) refl

abbrev gated_exam : Exam
gated_exam = record {
  id = txt "e1";
  name = txt "E";
  spec = exam_spec;
  created_ms = 0;
  seb_salt = txt "01";
}

abbrev gated_app : App
gated_app = record app {
  fleet = record waiting_fleet { exams = gated_exam ∷ []; public_url = some (txt "https://s.edu") };
}

-- What a start of this exam hands to the boards, and the key in it.
abbrev handed : Result Str (Option ExamPayload)
handed =
    payload_of plain_ext gated_app.fleet.public_url gated_app.fleet.exams start (some (txt "e1"))

abbrev payload_in : Result Str (Option ExamPayload) → ExamPayload
payload_in (ok (some p)) = p
payload_in r = record { id = []; name = []; config = Json.bool true; seb = none; config_key = none }

abbrev payload : ExamPayload
payload = payload_in handed

abbrev key : Str
key = unwrap_or payload.config_key []

gate_verify-opens_example :
    let status =
      (gate_verify plain_ext gated_app
        (txt "e1")
        (txt "https://s.edu/gate/e2")
        (txt "00")
        0).1.status in
    let page = without_fragment (txt "https://s.edu/gate/e2") in
    ((status ≡ (if null gated_exam.spec.access_code then 303 else 200)) ↔ (
      IsPageAt (txt "https://s.edu" ++ txt "/gate/" ++ txt "e1") page
      × IsKeyHash plain_ext page key (txt "00")))
    × ((status ≡ 403)
        ↔ ¬ (
            IsPageAt (txt "https://s.edu" ++ txt "/gate/" ++ txt "e1") page
            × IsKeyHash plain_ext page key (txt "00")))
unfolding txt riscv_exam_computer.Fleet.Exams.seb_build payload_of
    riscv_exam_computer.SebFile.Hex.from_hex riscv_exam_computer.Base.utf8
    riscv_exam_computer.Seb.effective_domains riscv_exam_computer.Seb.url_host
    riscv_exam_computer.Base.strip_prefix riscv_exam_computer.Base.trim
    riscv_exam_computer.Base.split riscv_exam_computer.Base.rsplit_once
    riscv_exam_computer.Base.contains_str riscv_exam_computer.Base.to_ascii_lowercase
    riscv_exam_computer.Base.utf8_len riscv_exam_computer.Base.is_ascii_alphanumeric
    riscv_exam_computer.Base.ends_with riscv_exam_computer.Fleet.Exams.exam
gate_verify-opens_example =
    gate_verify-opens plain_ext gated_app (txt "e1") (txt "https://s.edu/gate/e2") (txt "00")
      (txt "https://s.edu") key gated_exam payload 0 refl refl refl refl

abbrev keyed : Request
keyed =
    request Method.get (txt "/gate/e1")
      ((txt "x-safeexambrowser-configkeyhash", some (txt "00")) ∷ [])

abbrev drawn_bytes : List ℕ
drawn_bytes =
    1 ∷ 2 ∷ 3 ∷ 4 ∷ 5 ∷ 6 ∷ 7 ∷ 8 ∷ 1 ∷ 2 ∷ 3 ∷ 4 ∷ 5 ∷ 6 ∷ 7 ∷ 8 ∷ 1 ∷ 2 ∷ 3 ∷ 4 ∷ 5 ∷ 6 ∷ 7 ∷ 8
    ∷ 1 ∷ 2 ∷ 3 ∷ 4 ∷ 5 ∷ 6 ∷ 7 ∷ 255 ∷ []

abbrev session_text : Str
session_text = txt "exam_session=" ++ random_hex drawn_bytes

login-signed_in_example :
    signed_in plain_ext
      (Login.login plain_ext app stranger (some (txt "pw")) (random_hex drawn_bytes) 5 0).0.auth
      ((txt "cookie", some session_text) ∷ [])
      9
    ≡ ltb 9 (5 + session_ttl)
unfolding random_hex Login.login login digest riscv_exam_computer.Base.utf8 txt
    riscv_exam_computer.Server.Http.set_header riscv_exam_computer.Base.split
login-signed_in_example =
    login-signed_in plain_ext app stranger (txt "pw") drawn_bytes 5 0 session_text [] 9 refl
      (ground arith) refl
