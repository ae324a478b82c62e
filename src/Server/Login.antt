-- ===== src/Server/Login.antt =====
-- Sign-in and sign-out of the instructor.
pub mod Secrets
pub mod Cookies
use riscv_exam_computer.Base.{
  ℕ, Bool, true, false, Option, none, some, List, [], ◌∷◌, ◌++◌, take, if◌then◌else◌, unwrap_or,
  Result, ok, err, Str, txt,
}
use riscv_exam_computer.Base.Decimal.{decimal}
use riscv_exam_computer.SebFile.Values.{Ext}
use riscv_exam_computer.Fleet.Model.{Fleet, Instant, Actor, Level, as_secs}
use riscv_exam_computer.Fleet.Log.{log}
use riscv_exam_computer.Auth.Digests.{Auth, LoginError, bad_password, rate_limited}
use riscv_exam_computer.Auth.Sessions.{session_ttl}
use riscv_exam_computer.Auth.Sessions
use riscv_exam_computer.Auth.Origin.{eq_ignore_ascii_case}
use riscv_exam_computer.Server.State.{App, CookieSecure}
use riscv_exam_computer.Server.Http.{
  Request, Response, see_other, with_header, header, header_text, session_cookie, session_token,
}

-- The key of the rate limit.
unfoldable pub client_key : Request → Str
unfolding header
client_key req = elim (header_text (txt "cf-connecting-ip") req.headers) [
  | some ip ↦ take 64 ip
  | none ↦ unwrap_or req.peer (txt "unknown")
]

unfoldable pub wants_secure_cookie : CookieSecure → List (Str × Option Str) → Bool
unfolding header eq_ignore_ascii_case
wants_secure_cookie CookieSecure.always hs = true
wants_secure_cookie CookieSecure.never hs = false
wants_secure_cookie CookieSecure.auto hs = elim (header_text (txt "x-forwarded-proto") hs) [
  | none ↦ false
  | some v ↦ eq_ignore_ascii_case v (txt "https")
]

unfoldable pub login_cookie : Str → Bool → Str
login_cookie token secure =
    session_cookie
    ++ txt "="
    ++ token
    ++ txt "; Path=/; HttpOnly; SameSite=Strict; Max-Age="
    ++ decimal (as_secs session_ttl)
    ++ (if secure then txt "; Secure" else [])

-- What `login` logs and answers, after the check of the password.
unfoldable pub login_answer : Fleet → Str → Bool → Result LoginError Str → ℕ → Fleet × Response
unfolding login_cookie
login_answer f key secure (ok token) wall_ms = (
  log f wall_ms Actor.instructor Level.info none (txt "Signed in"),
  with_header (txt "set-cookie") (login_cookie token secure) (see_other (txt "/")),
)
login_answer f key secure (err bad_password) wall_ms = (
  log f wall_ms Actor.system Level.warn none (txt "Failed sign-in attempt from " ++ key),
  see_other (txt "/login?e=bad"),
)
login_answer f key secure (err rate_limited) wall_ms = (f, see_other (txt "/login?e=locked"))

module _ (ext : Ext) where
  -- `form` is the password of the form, or none where it is malformed; `token` what is drawn.
  unfoldable pub login : App → Request → Option Str → Str → Instant → ℕ → App × Response
  unfolding client_key wants_secure_cookie login_answer
  login a req none token now wall_ms = (a, see_other (txt "/login?e=bad"))
  login a req (some password) token now wall_ms =
      let key = client_key req in
      let (auth, result) = Sessions.login ext a.auth key password now token in
      let (f, res) =
        login_answer a.fleet key (wants_secure_cookie a.cookie_secure req.headers) result wall_ms in
      (record a { auth = auth; fleet = f }, res)

  unfoldable pub logout : App → Request → App × Response
  unfolding session_token
  logout a req =
      let res =
        with_header (txt "set-cookie")
          (session_cookie ++ txt "=; Path=/; HttpOnly; SameSite=Strict; Max-Age=0")
          (see_other (txt "/login")) in
      elim (session_token req.headers) [
        | none ↦ (a, res)
        | some t ↦ (record a { auth = Sessions.logout ext a.auth t }, res)
      ]
