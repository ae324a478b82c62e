-- ===== src/Server/Boards/Blob.antt =====
-- The exam file that boards poll, and the agent's token.
use riscv_exam_computer.Base.{
  ℕ, ◌+◌, ◌*◌, ◌==◌, ◌&&◌, ◌/◌, ◌%◌, ◌<◌, ◌≡◌, ◌∙◌, refl, false, Option, none, some, [], ◌∷◌, ◌++◌,
  All, arith, Str, str_eq, List, if◌then◌else◌, Bool-cases, inl, inr, txt, opt_str_eq,
}
use riscv_exam_computer.Proto.{Heartbeat}
use riscv_exam_computer.SebFile.Values.{Ext}
use riscv_exam_computer.Fleet.Model.{Instant}
use riscv_exam_computer.Auth.Digests.{agent_allowed}
use riscv_exam_computer.Server.State.{App}
use riscv_exam_computer.Server.Http.{Request, Response, Body, header_text, set_header}
use riscv_exam_computer.SebFile.Hex.{hex, hex_digit}
use riscv_exam_computer.Server.Boards.{post_heartbeat, etag_of, exam_put, file_response, exam_get}

-- The tag that a response comes with.
abbrev tag_in : List (Str × Str) → Option Str
tag_in [] = none
tag_in ((k, v) ∷ hs) = if str_eq k (txt "etag") then some v else tag_in hs

abbrev pub sent_tag : Response → Option Str
sent_tag res = tag_in res.headers

digit_eq : (m n : ℕ) → m < 16 → n < 16 → (hex_digit m == hex_digit n) ≡ (m == n)
unfolding hex_digit
digit_eq m n p q = ground arith

byte_eq : (b c : ℕ) → (b / 16 == c / 16 && b % 16 == c % 16) ≡ (b == c)
byte_eq b c =
    let whole : b / 16 * 16 + b % 16 ≡ b = omega arith in
    let other : c / 16 * 16 + c % 16 ≡ c = omega arith in ground arith

quote-digit : (n : ℕ) → n < 16 → ((b'"' == hex_digit n) ≡ false) × ((hex_digit n == b'"') ≡ false)
unfolding hex_digit
quote-digit n p = ground arith

-- The tags of two hashes are equal as the hashes are.
tag_eq :
    (bs cs : List ℕ)
    → All (λ b. b < 256) bs
    → All (λ b. b < 256) cs
    → str_eq (hex bs ++ b'"' ∷ []) (hex cs ++ b'"' ∷ []) ≡ str_eq bs cs
unfolding str_eq hex
tag_eq [] [] p q = refl
tag_eq [] (c ∷ cs) p (q, qs) = rw (quote-digit (c / 16) (omega arith)).0 refl
tag_eq (b ∷ bs) [] (p, ps) q = rw (quote-digit (b / 16) (omega arith)).1 refl
tag_eq (b ∷ bs) (c ∷ cs) (p, ps) (q, qs) =
    let hi = digit_eq (b / 16) (c / 16) (omega arith) (omega arith) in
    let lo = digit_eq (b % 16) (c % 16) (omega arith) (omega arith) in
    rw (hi, lo, tag_eq bs cs ps qs, ← byte_eq b c) (ground arith)

module _ (ext : Ext) where
  sent_tag-exam_put :
      (a : App) (old : List ℕ) (first : Request)
      → sent_tag (exam_get (exam_put ext a old).0 first) ≡ some (etag_of ext old)
  unfolding exam_get exam_put file_response set_header str_eq txt
  sent_tag-exam_put a old first =
      elim (Bool-cases
        (opt_str_eq (header_text (txt "if-none-match") first.headers) (some (etag_of ext old)))) [
          | inl e ↦ rw e refl
          | inr e ↦ rw e refl
        ]

  etag_of-eq :
      (old body : List ℕ)
      → All (λ b. b < 256) (ext.sha256 old)
      → All (λ b. b < 256) (ext.sha256 body)
      → opt_str_eq (some (etag_of ext old)) (some (etag_of ext body))
        ≡ str_eq (ext.sha256 old) (ext.sha256 body)
  unfolding etag_of opt_str_eq str_eq
  etag_of-eq old body p q = tag_eq (ext.sha256 old) (ext.sha256 body) p q

  -- A board that has polled for a file, and polls again with the tag that it got after another upload,
  -- gets the new file, with 200, exactly if its hash is another one; for the same hash it gets 304 without
  -- a body. The hash is taken to be made of bytes.
  pub exam_get-exam_put :
      (a : App) (old body : List ℕ) (first req : Request)
      → All (λ b. b < 256) (ext.sha256 old)
      → All (λ b. b < 256) (ext.sha256 body)
      → header_text (txt "if-none-match") req.headers
        ≡ sent_tag (exam_get (exam_put ext a old).0 first)
      → let res = exam_get (exam_put ext (exam_put ext a old).0 body).0 req in
        let cached = str_eq (ext.sha256 old) (ext.sha256 body) in
        (res.status ≡ (if cached then 304 else 200))
        × (res.body ≡ (if cached then Body.empty else Body.raw body))
  unfolding exam_get exam_put file_response
  exam_get-exam_put a old body first req p q tagged =
      let tag : header_text (txt "if-none-match") req.headers ≡ some (etag_of ext old) =
        tagged ∙ sent_tag-exam_put a old first in
      let same = etag_of-eq old body p q in
      elim (Bool-cases (str_eq (ext.sha256 old) (ext.sha256 body))) [
        | inl e ↦ rw (tag, same, e) (refl, refl)
        | inr e ↦ rw (tag, same, e) (refl, refl)
      ]

  -- A heartbeat without the agent's token leaves the server as it was, whatever it says.
  pub post_heartbeat-refused :
      (a : App) (req : Request) (parsed : Option Heartbeat) (now : Instant) (wall_ms : ℕ)
      → agent_allowed ext a.auth (header_text (txt "authorization") req.headers) ≡ false
      → ((post_heartbeat ext a req parsed now wall_ms).0 ≡ a)
        × ((post_heartbeat ext a req parsed now wall_ms).1.status ≡ 401)
  unfolding post_heartbeat
  post_heartbeat-refused a req parsed now wall_ms h = rw (h, post_heartbeat) (refl, refl)
