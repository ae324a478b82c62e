-- ===== src/Server/Http.antt =====
-- Requests and responses of backend/http.rs, and the pages that it writes itself.
pub mod Escaping
use riscv_exam_computer.Base.{
  ℕ, Bool, true, false, not, ◌&&◌, Option, none, some, List, [], ◌∷◌, ◌++◌, ◌==◌, if◌then◌else◌,
  is_none, is_some, opt_bind, Str, txt, str_eq,
}
use riscv_exam_computer.Proto.{HeartbeatReply, reply_of}
use riscv_exam_computer.Fleet.Model.{BoardView}
use riscv_exam_computer.Auth.Origin.{cookie}

pub data Method : Type 0 where
  get head options post : Method
  other : Str → Method

-- A header's value is none where `to_str` fails on it.
pub record Request : Type 0 where
  pub method : Method
  pub path : Str
  pub path_and_query : Option Str
  pub headers : List (Str × Option Str)
  pub peer : Option Str

pub data Body : Type 0 where
  empty : Body
  text html : Str → Body
  raw : List ℕ → Body
  agent_reply : HeartbeatReply → Body
  listing : List BoardView → Body
  stored : Str → ℕ → Body

pub record Response : Type 0 where
  pub status : ℕ
  pub headers : List (Str × Str)
  pub body : Body

abbrev pub response : ℕ → Body → Response
response status body = record { status = status; headers = []; body = body }

-- `HeaderMap::get`: the first value of a header.
unfoldable pub header : Str → List (Str × Option Str) → Option (Option Str)
unfolding str_eq
header k [] = none
header k ((j, v) ∷ hs) = if str_eq j k then some v else header k hs

-- `get(k).and_then(|v| v.to_str().ok())`.
abbrev pub header_text : Str → List (Str × Option Str) → Option Str
header_text k hs = opt_bind (header k hs) (λ v. v)

unfoldable pub contains_header : Str → List (Str × Str) → Bool
unfolding str_eq
contains_header k [] = false
contains_header k ((j, v) ∷ hs) = if str_eq j k then true else contains_header k hs

unfoldable pub drop_header : Str → List (Str × Str) → List (Str × Str)
unfolding str_eq
drop_header k [] = []
drop_header k ((j, v) ∷ hs) = if str_eq j k then drop_header k hs else (j, v) ∷ drop_header k hs

-- `HeaderMap::insert` replaces all values of the header.
unfoldable pub set_header : Str → Str → List (Str × Str) → List (Str × Str)
unfolding drop_header
set_header k v hs = (k, v) ∷ drop_header k hs

abbrev pub with_header : Str → Str → Response → Response
with_header k v res = record res { headers = set_header k v res.headers }

abbrev pub csp : Str
csp = txt "content-security-policy"

unfoldable pub escape_html_char : ℕ → Str
escape_html_char c =
    if c == b'&'
    then txt "&amp;"
    else if c == b'<'
    then txt "&lt;"
    else if c == b'>'
    then txt "&gt;"
    else if c == b'"'
    then txt "&quot;"
    else if c == b'\''
    then txt "&#39;"
    else c ∷ []

unfoldable pub html_escape : Str → Str
unfolding escape_html_char
html_escape [] = []
html_escape (c ∷ s) = escape_html_char c ++ html_escape s

abbrev gate_style : Str
gate_style =
    txt "body{font:17px/1.5 system-ui,sans-serif;background:#0b0b0d;color:#f5f5f7;display:grid;"
    ++ txt "place-items:center;min-height:100vh;margin:0}"
    ++ txt "main{max-width:34rem;padding:2rem;background:#1c1c20;border-radius:20px}"
    ++ txt "h1{font-size:1.5rem;margin:0 0 .5rem} .code{font:600 2rem ui-monospace,monospace;"
    ++ txt "letter-spacing:.1em;margin:1rem 0}"
    ++ txt "a.btn{display:inline-block;background:#f5f5f7;color:#0b0b0d;padding:.6rem 1.2rem;"
    ++ txt "border-radius:999px;text-decoration:none;font-weight:600}"
    ++ txt ".muted{color:#a1a1a6}"

unfoldable pub gate_page : ℕ → Str → Str → Response
unfolding html_escape
gate_page status title body =
    let t = html_escape title in
    let page =
      txt "<!doctype html><html lang=\"en\"><head><meta charset=\"utf-8\">"
      ++ txt "<meta name=\"viewport\" content=\"width=device-width, initial-scale=1\"><title>"
      ++ t
      ++ txt "</title><style>"
      ++ gate_style
      ++ txt "</style></head><body><main><h1>"
      ++ t
      ++ txt "</h1>"
      ++ body
      ++ txt "</main></body></html>" in
    with_header csp
      (txt
        "default-src 'none'; style-src 'unsafe-inline'; base-uri 'none'; form-action 'none'; frame-ancestors 'none'")
      (with_header (txt "content-type") (txt "text/html; charset=utf-8")
        (response status (Body.html page)))

-- `Redirect::to`, a 303.
abbrev pub see_other : Str → Response
see_other location = with_header (txt "location") location (response 303 Body.empty)

abbrev default_csp : Str
default_csp =
    txt
      "default-src 'self'; script-src 'none'; frame-ancestors 'none'; base-uri 'none'; form-action 'self'"

abbrev if_missing : Str → Str → Response → Response
if_missing k v res = if contains_header k res.headers then res else with_header k v res

unfoldable pub with_headers : Response → Response
unfolding set_header contains_header
with_headers res = if_missing (txt "cache-control") (txt "no-store") (
    if_missing csp default_csp (
      with_header (txt "referrer-policy") (txt "same-origin") (
        with_header (txt "x-frame-options") (txt "DENY")
          (with_header (txt "x-content-type-options") (txt "nosniff") res))))

unfoldable pub page_csp : Str → Str
page_csp nonce =
    txt "default-src 'self'; script-src 'self' 'nonce-"
    ++ nonce
    ++ txt "' 'wasm-unsafe-eval'; style-src 'self' 'unsafe-inline'; img-src 'self' data:; "
    ++ txt
        "font-src 'self'; connect-src 'self'; frame-ancestors 'none'; base-uri 'none'; form-action 'self'"

abbrev pub session_cookie : Str
session_cookie = txt "exam_session"

-- The first cookie header that has the session's cookie.
unfoldable pub session_token : List (Str × Option Str) → Option Str
unfolding str_eq cookie
session_token [] = none
session_token ((k, none) ∷ hs) = session_token hs
session_token ((k, some v) ∷ hs) =
    let rest = session_token hs in
    if str_eq k (txt "cookie")
    then elim (cookie v session_cookie) [ some t ↦ some t | none ↦ rest ]
    else rest
