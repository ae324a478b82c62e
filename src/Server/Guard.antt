-- ===== src/Server/Guard.antt =====
-- The guard in front of every route.
pub mod Access
use riscv_exam_computer.Base.{
  ℕ, ◌≡◌, Bool, true, false, not, ◌&&◌, ◌||◌, Option, none, some, List, [], ◌∷◌, ◌++◌,
  if◌then◌else◌, opt_bind, unwrap_or, is_some, Str, txt, str_eq, mem_str, starts_with,
}
use riscv_exam_computer.SebFile.Values.{Ext}
use riscv_exam_computer.Fleet.Model.{Instant}
use riscv_exam_computer.Auth.Digests.{Auth}
use riscv_exam_computer.Auth.Sessions.{session_valid}
use riscv_exam_computer.Auth.Origin.{same_origin}
use riscv_exam_computer.Server.State.{App}
use riscv_exam_computer.Server.Http.{
  Method, Request, Response, Body, response, see_other, with_headers, header, header_text,
  session_token,
}

unfoldable pub is_public : Str → Bool
unfolding mem_str starts_with
is_public path =
    mem_str path (
      txt "/heartbeat"
      ∷ txt "/exam.seb"
      ∷ txt "/healthz"
      ∷ txt "/login"
      ∷ txt "/auth/login"
      ∷ txt "/favicon.svg"
      ∷ [])
    || starts_with path (txt "/gate/")
    || starts_with path (txt "/pkg/")
    || starts_with path (txt "/fonts/")
    || starts_with path (txt "/brand/")

abbrev pub is_unsafe : Method → Bool
is_unsafe Method.get = false
is_unsafe Method.head = false
is_unsafe Method.options = false
is_unsafe _ = true

abbrev pub is_get : Method → Bool
is_get Method.get = true
is_get _ = false

abbrev or_else : Option (Option Str) → Option (Option Str) → Option (Option Str)
or_else none b = b
or_else (some a) b = some a

-- The Origin header, or the Referer where there is none.
unfoldable pub origin_of : List (Str × Option Str) → Option Str
unfolding header
origin_of hs = opt_bind (or_else (header (txt "origin") hs) (header (txt "referer") hs)) (λ v. v)

unfoldable pub origin_allowed : List Str → List (Str × Option Str) → Bool
unfolding origin_of same_origin header
origin_allowed allowed hs = elim (origin_of hs) [
  | none ↦ false
  | some o ↦ same_origin o (unwrap_or (header_text (txt "host") hs) []) allowed
]

unfoldable pub checks_origin : Request → Bool
unfolding str_eq
checks_origin req =
    is_unsafe req.method
    && not (str_eq req.path (txt "/heartbeat"))
    && not (str_eq req.path (txt "/exam.seb"))

module _ (ext : Ext) where
  unfoldable pub signed_in : Auth → List (Str × Option Str) → Instant → Bool
  unfolding session_token session_valid
  signed_in auth hs now = elim (session_token hs) [
    | none ↦ false
    | some t ↦ session_valid ext auth t now
  ]

  -- The response that refuses the request, or none where it goes on.
  unfoldable pub refusal : App → Request → Instant → Option Response
  unfolding checks_origin origin_allowed is_public signed_in
  refusal a req now =
      if checks_origin req && not (origin_allowed a.allowed_origins req.headers)
      then some (response 403 (Body.text (txt "Cross-origin request refused")))
      else if not (is_public req.path) && not (signed_in a.auth req.headers now)
      then some (
          if is_get req.method
          then see_other (txt "/login")
          else response 401 (Body.text (txt "Sign in first")))
      else none

  -- `next` is the rest of the router on this request.
  unfoldable pub guard : App → Request → Instant → (App → App × Response) → App × Response
  unfolding refusal with_headers
  guard a req now next = elim (refusal a req now) [
    | some res ↦ (a, with_headers res)
    | none ↦ (let (b, res) = next a in (b, with_headers res))
  ]
