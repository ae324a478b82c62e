-- ===== src/Server/Login/Cookies.antt =====
-- The cookie that a sign-in sets, and what the guard reads of it.
use mathlib.Core.List.{append_assoc}
use riscv_exam_computer.Base.{
  ℕ, ◌+◌, ◌*◌, ◌/◌, ◌%◌, ◌<◌, ◌≡◌, ◌⊎◌, inl, inr, refl, ap, ◌∙◌, Bool, true, false, ◌&&◌, ◌||◌,
  Option, none, some, List, [], ◌∷◌, ◌++◌, arith, All, All-append, length, ltb, leb, ◌==◌,
  if◌then◌else◌, Bool-cases, ok, err, opt_map, Str, txt, str_eq, split, utf8_len, is_whitespace,
  char_utf8_len,
}
use riscv_exam_computer.Base.Pieces.{Lacks, any-Lacks, split-Lacks, split-first, trim-Lacks}
use riscv_exam_computer.Base.Decimal.{decimal}
use riscv_exam_computer.Seb.{first_piece}
use riscv_exam_computer.SebFile.Values.{Ext}
use riscv_exam_computer.SebFile.Hex.{hex, hex_digit}
use riscv_exam_computer.SebFile.Hex.Inverse.{length-hex}
use riscv_exam_computer.Fleet.Model.{Fleet, Instant, as_secs}
use riscv_exam_computer.Auth.Digests.{Auth, LoginError, bad_password, rate_limited, digest}
use riscv_exam_computer.Auth.Limiter.{prune, locked}
use riscv_exam_computer.Auth.Origin.{cookie, find_cookie, split_once, random_hex}
use riscv_exam_computer.Auth.Sessions.{session_ttl, session_valid}
use riscv_exam_computer.Auth.Sessions
use riscv_exam_computer.Auth.Sessions.Laws.{login-session_valid}
use riscv_exam_computer.Server.State.{App}
use riscv_exam_computer.Server.Http.{Request, Response, session_cookie, session_token, set_header}
use riscv_exam_computer.Server.Guard.{signed_in}
use riscv_exam_computer.Server.Login.{
  login, login_answer, login_cookie, client_key, wants_secure_cookie,
}

abbrev is_hex_char : ℕ → Bool
is_hex_char c = (leb 48 c && leb c 57) || (leb 97 c && leb c 102)

hex_digit-hex_char : (n : ℕ) → n < 16 → is_hex_char (hex_digit n) ≡ true
unfolding hex_digit
hex_digit-hex_char n h = ground arith

abbrev IsHex : Str → Type 0
IsHex s = All (λ c. is_hex_char c ≡ true) s

random_hex-IsHex : (buf : List ℕ) → All (λ b. b < 256) buf → IsHex (random_hex buf)
unfolding random_hex hex
random_hex-IsHex [] h = tt
random_hex-IsHex (b ∷ bs) (p, h) = (
  hex_digit-hex_char (b / 16) (omega arith),
  (hex_digit-hex_char (b % 16) (omega arith), random_hex-IsHex bs h),
)

hex_char-plain :
    (c : ℕ)
    → is_hex_char c ≡ true
    → ((c == b';') ≡ false) × (is_whitespace c ≡ false) × (char_utf8_len c ≡ 1)
unfolding is_whitespace char_utf8_len
hex_char-plain c h = ground arith

abbrev is_semicolon : ℕ → Bool
is_semicolon c = c == b';'

IsHex-Lacks : (s : Str) → IsHex s → Lacks is_semicolon s × Lacks is_whitespace s
IsHex-Lacks [] h = (tt, tt)
IsHex-Lacks (c ∷ s) (p, h) =
    let (semi, blank, one) = hex_char-plain c p in
    let (semis, blanks) = IsHex-Lacks s h in ((semi, semis), (blank, blanks))

utf8_len-IsHex : (s : Str) → IsHex s → utf8_len s ≡ length s
unfolding utf8_len
utf8_len-IsHex [] h = refl
utf8_len-IsHex (c ∷ s) (p, h) = omega (arith, (hex_char-plain c p).2, utf8_len-IsHex s h)

-- The name and the value, as a browser sends them.
abbrev pair_text : Str → Str
pair_text token = session_cookie ++ b'=' ∷ token

pair_text-Lacks :
    (token : Str)
    → IsHex token
    → Lacks is_semicolon (pair_text token) × Lacks is_whitespace (pair_text token)
unfolding txt is_whitespace
pair_text-Lacks token h =
    let name = txt "exam_session=" in
    let (semis, blanks) = IsHex-Lacks token h in
    (
      All-append (λ c. is_semicolon c ≡ false) name token (any-Lacks is_semicolon name refl) semis,
      All-append (λ c. is_whitespace c ≡ false) name token (any-Lacks is_whitespace name refl)
          blanks,
    )

-- The server reads the token out of it.
session_token-pair_text :
    (token : Str) (hs : List (Str × Option Str))
    → IsHex token
    → session_token ((txt "cookie", some (pair_text token)) ∷ hs) ≡ some token
unfolding session_token cookie find_cookie split_once txt str_eq
session_token-pair_text token hs h =
    let (semis, blanks) = pair_text-Lacks token h in
    rw (split-Lacks is_semicolon (pair_text token) semis, trim-Lacks (pair_text token) blanks) refl

-- What a browser sends back of the cookie that a response sets: the part before its attributes.
abbrev set_cookie : List (Str × Str) → Option Str
set_cookie [] = none
set_cookie ((k, v) ∷ hs) = if str_eq k (txt "set-cookie") then some v else set_cookie hs

abbrev pub sent_back : Response → Option Str
sent_back res = opt_map (λ v. first_piece (split is_semicolon v)) (set_cookie res.headers)

login_cookie-pair_text :
    (token : Str) (secure : Bool)
    → (attributes : Str) × (login_cookie token secure ≡ pair_text token ++ b';' ∷ attributes)
unfolding login_cookie txt
login_cookie-pair_text token secure =
    let fixed = txt " Path=/; HttpOnly; SameSite=Strict; Max-Age=" in
    let age = decimal (as_secs session_ttl) in
    let mark = if secure then txt "; Secure" else [] in
    (
      fixed ++ age ++ mark,
      ap (λ s. s ++ mark) (append_assoc (pair_text token) (b';' ∷ fixed) age)
          ∙ append_assoc (pair_text token) (b';' ∷ fixed ++ age) mark,
    )

sent_back-ok :
    (f : Fleet) (key token : Str) (secure : Bool) (wall_ms : ℕ)
    → IsHex token
    → sent_back (login_answer f key secure (ok token) wall_ms).1 ≡ some (pair_text token)
unfolding login_answer set_header str_eq txt
sent_back-ok f key token secure wall_ms h =
    let (attributes, e) = login_cookie-pair_text token secure in
    ap (λ v. some (first_piece (split is_semicolon v))) e
    ∙ ap (λ ps. some (first_piece ps))
        (split-first is_semicolon (pair_text token) b';' attributes (pair_text-Lacks token h).0
          refl)

sent_back-err :
    (f : Fleet) (key : Str) (secure : Bool) (e : LoginError) (wall_ms : ℕ)
    → sent_back (login_answer f key secure (err e) wall_ms).1 ≡ none
unfolding login_answer set_header str_eq txt
sent_back-err f key secure bad_password wall_ms = refl
sent_back-err f key secure rate_limited wall_ms = refl

module _ (ext : Ext) where
  -- A login either fails or answers with the token that was drawn.
  login-answers :
      (a : Auth) (client password : Str) (now : Instant) (token : Str)
      → ((Sessions.login ext a client password now token).1 ≡ ok token)
        ⊎ ((e : LoginError) × ((Sessions.login ext a client password now token).1 ≡ err e))
  unfolding Sessions.login
  login-answers a client password now token =
      elim (Bool-cases (locked client (prune now a.limiter))) [
        | inl l ↦ rw l (inr (rate_limited, refl))
        | inr l ↦ elim (Bool-cases (str_eq (digest ext password) a.password)) [
          | inl w ↦ rw (l, w) (inl refl)
          | inr w ↦ rw (l, w) (inr (bad_password, refl))
        ]
      ]

  login-sent_back :
      (a : App) (req : Request) (password token : Str) (now : Instant) (wall_ms : ℕ) (c : Str)
      → IsHex token
      → sent_back (login ext a req (some password) token now wall_ms).1 ≡ some c
      → (c ≡ pair_text token)
        × ((Sessions.login ext a.auth (client_key req) password now token).1 ≡ ok token)
  unfolding login
  login-sent_back a req password token now wall_ms c h sent =
      let key = client_key req in
      let secure = wants_secure_cookie a.cookie_secure req.headers in
      elim (login-answers a.auth key password now token) [
        | inl e ↦
            let q = sent_back-ok a.fleet key token secure wall_ms h in
            let r = rw e at sent in (cc, e)
        | inr (why, e) ↦
            let q = sent_back-err a.fleet key secure why wall_ms in
            let r = rw e at sent in absurd (cc)
      ]

  -- A browser that a sign-in gives a cookie is signed in with it for exactly twelve hours: a request
  -- whose first cookie header is what the browser sends back, if the token is made of 32 bytes.
  pub login-signed_in :
      (a : App) (req : Request) (password : Str) (buf : List ℕ) (now : Instant) (wall_ms : ℕ)
      (c : Str) (hs : List (Str × Option Str)) (later : Instant)
      → length buf ≡ 32
      → All (λ b. b < 256) buf
      → sent_back (login ext a req (some password) (random_hex buf) now wall_ms).1 ≡ some c
      → signed_in ext
          (login ext a req (some password) (random_hex buf) now wall_ms).0.auth
          ((txt "cookie", some c) ∷ hs)
          later
        ≡ ltb later (now + session_ttl)
  unfolding login signed_in random_hex
  login-signed_in a req password buf now wall_ms c hs later n bytes sent =
      let token = random_hex buf in
      let hex_text = random_hex-IsHex buf bytes in
      let (text, accepted) = login-sent_back a req password token now wall_ms c hex_text sent in
      let read = session_token-pair_text token hs hex_text in
      let sized : utf8_len token ≡ 64 =
        utf8_len-IsHex token hex_text ∙ length-hex buf ∙ ap (λ k. 2 * k) n in
      rw (text, signed_in, read)
        (login-session_valid ext a.auth (client_key req) password now token later sized accepted)
