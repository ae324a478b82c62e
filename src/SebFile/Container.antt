-- ===== src/SebFile/Container.antt =====
-- The `.seb` binary container. Randomness is an argument.
pub mod RoundTrip
use riscv_exam_computer.Base.{
  ℕ, ◌+◌, ◌-◌, ◌≡◌, refl, Bool, true, false, not, ◌&&◌, ◌||◌, Option, none, some, List, [], ◌∷◌,
  ◌++◌, ltb, ◌==◌, if◌then◌else◌, length, take, drop, null, opt_filter, Result, ok, err, ◌>>=◌,
  ◌>>◌, refuse, ok_or, Str, txt, str_eq, starts_with, utf8,
}
use riscv_exam_computer.SebFile.Values.{Ext}

abbrev pub header_len : ℕ
header_len = 2 + 8 + 8 + 16

abbrev pub mac_len : ℕ
mac_len = 32

-- The two salts and the initialisation vector that `encrypt` draws.
pub record Draw : Type 0 where
  pub enc_salt : List ℕ
  pub mac_salt : List ℕ
  pub iv : List ℕ

-- `data[0] != VERSION || data[1] != OPTIONS`.
unfoldable pub wrong_version : List ℕ → Bool
wrong_version [] = true
wrong_version (v ∷ []) = true
wrong_version (v ∷ o ∷ rest) = not (v == 2) || not (o == 1)

module _ (ext : Ext) where
  open ext use {gzip, gunzip, pbkdf2, cbc_encrypt, cbc_decrypt, hmac_sha256}

  unfoldable pub sealed_body : Draw → Str → List ℕ → List ℕ
  sealed_body r password plain =
      2 ∷ 1 ∷ r.enc_salt
      ++ (r.mac_salt ++ (r.iv ++ cbc_encrypt (pbkdf2 (utf8 password) r.enc_salt) r.iv plain))

  unfoldable pub encrypt : Draw → Str → List ℕ → List ℕ
  unfolding sealed_body
  encrypt r password plain =
      let out = sealed_body r password plain in
      out ++ hmac_sha256 (pbkdf2 (utf8 password) r.mac_salt) out

  unfoldable pub decrypt : Str → List ℕ → Result Str (List ℕ)
  unfolding wrong_version
  decrypt password sealed = do
    refuse (ltb (length sealed) (header_len + mac_len) || wrong_version sealed)
        (txt "not SEB password-encrypted data")
    let body = take (length sealed - mac_len) sealed
    let tag = drop (length sealed - mac_len) sealed
    let mac_key = pbkdf2 (utf8 password) (take 8 (drop 10 sealed))
    refuse (not (str_eq (hmac_sha256 mac_key body) tag)) (txt "wrong password or corrupted file")
    let enc_key = pbkdf2 (utf8 password) (take 8 (drop 2 sealed))
    ok_or (cbc_decrypt enc_key (take 16 (drop 18 sealed)) (drop header_len body))
        (txt "bad padding")

  unfoldable pub frame : Draw → Str → Option Str → List ℕ
  unfolding encrypt
  frame r xml password = elim (opt_filter (λ p. not (null p)) password) [
    | some pw ↦ txt "pswd" ++ encrypt r pw (gzip (utf8 xml))
    | none ↦ txt "plnd" ++ gzip (utf8 xml)
  ]

  unfoldable pub encode : Draw → Str → Option Str → List ℕ
  unfolding frame
  encode r xml password = gzip (frame r xml password)

  unfoldable pub open_frame : List ℕ → Option Str → Result Str (List ℕ)
  unfolding decrypt
  open_frame bytes password =
      let prefix = take 4 bytes in
      let rest = drop 4 bytes in
      if starts_with bytes (txt "<?xml") || starts_with bytes (txt "<plist")
      then ok bytes
      else if str_eq prefix (txt "plnd")
      then gunzip rest
      else if str_eq prefix (txt "pswd") || str_eq prefix (txt "pwcc")
      then (do
        pw ← ok_or password (txt "this file needs a password")
        inner ← decrypt pw rest
        gunzip inner)
      else if str_eq prefix (txt "pkhs") || str_eq prefix (txt "phsk")
      then err (txt "certificate-encrypted .seb files are not supported")
      else err (txt "unknown .seb format")

  unfoldable pub decode : List ℕ → Option Str → Result Str (List ℕ)
  unfolding open_frame
  decode bytes password = do
    inner ← if starts_with bytes (0x1f ∷ 0x8b ∷ []) then gunzip bytes else ok bytes
    open_frame inner password
