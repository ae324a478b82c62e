-- ===== src/SebFile/Container/RoundTrip.antt =====
-- What `decode` reads of what `encode` wrote.
use riscv_exam_computer.Base.{
  ℕ, zero, suc, ◌+◌, ◌-◌, ◌≤◌, ◌≡◌, refl, sym, ap, ◌∙◌, subst, true, false, Option, none, some,
  List, [], ◌∷◌, ◌++◌, arith, ltb, length, length-append, take, drop, ok, ◌>>=◌, Str, txt, str_eq,
  str_eq_refl, starts_with, utf8,
}
use riscv_exam_computer.SebFile.Values.{Ext}
use riscv_exam_computer.SebFile.Container.{
  Draw, header_len, mac_len, wrong_version, sealed_body, encrypt, decrypt, frame, encode,
  open_frame, decode,
}

-- What the container relies on: the crates' own round trips, and the gzip magic number.
pub record IsCodec (ext : Ext) : Type 0 where
  pub gunzip-gzip : (bs : List ℕ) → ext.gunzip (ext.gzip bs) ≡ ok bs
  pub gzip_magic : (bs : List ℕ) → starts_with (ext.gzip bs) (0x1f ∷ 0x8b ∷ []) ≡ true
  pub decrypt-encrypt :
      (key iv plain : List ℕ) → ext.cbc_decrypt key iv (ext.cbc_encrypt key iv plain) ≡ some plain
  pub mac : (key bs : List ℕ) → length (ext.hmac_sha256 key bs) ≡ mac_len

-- The lengths of what `encrypt` draws.
pub record IsDrawn (r : Draw) : Type 0 where
  pub enc_salt : length r.enc_salt ≡ 8
  pub mac_salt : length r.mac_salt ≡ 8
  pub iv : length r.iv ≡ 16

take-append : (n : ℕ) (xs ys : List ℕ) → length xs ≡ n → take n (xs ++ ys) ≡ xs
take-append zero [] ys h = refl
take-append zero (x ∷ xs) ys h = absurd (omega (arith, h))
take-append (suc n) [] ys h = absurd (omega (arith, h))
take-append (suc n) (x ∷ xs) ys h = ap (λ z. x ∷ z) (take-append n xs ys (omega (arith, h)))

drop-append : (n : ℕ) (xs ys : List ℕ) → length xs ≡ n → drop n (xs ++ ys) ≡ ys
drop-append zero [] ys h = refl
drop-append zero (x ∷ xs) ys h = absurd (omega (arith, h))
drop-append (suc n) [] ys h = absurd (omega (arith, h))
drop-append (suc n) (x ∷ xs) ys h = drop-append n xs ys (omega (arith, h))

drop-nil : (n : ℕ) → drop {A = ℕ} n [] ≡ []
drop-nil zero = refl
drop-nil (suc n) = refl

drop-drop : (m n : ℕ) (xs : List ℕ) → drop (m + n) xs ≡ drop n (drop m xs)
drop-drop zero n xs = ap (λ k. drop k xs) (omega arith)
drop-drop (suc m) n [] = drop-nil (suc m + n) ∙ sym (drop-nil n)
drop-drop (suc m) n (x ∷ xs) =
    let grown : suc m + n ≡ suc (m + n) = omega arith in
    ap (λ k. drop k (x ∷ xs)) grown ∙ drop-drop m n xs

++-assoc : (xs ys zs : List ℕ) → (xs ++ ys) ++ zs ≡ xs ++ (ys ++ zs)
++-assoc [] ys zs = refl
++-assoc (x ∷ xs) ys zs = ap (λ z. x ∷ z) (++-assoc xs ys zs)

-- Both parts of a concatenation, by the length of the second.
split_tail :
    (xs tag : List ℕ)
    → (take (length (xs ++ tag) - length tag) (xs ++ tag) ≡ xs)
      × (drop (length (xs ++ tag) - length tag) (xs ++ tag) ≡ tag)
split_tail xs tag =
    let n : length (xs ++ tag) - length tag ≡ length xs = omega (arith, length-append xs tag) in
    rw n (take-append (length xs) xs tag refl, drop-append (length xs) xs tag refl)

module _ (ext : Ext) (codec : IsCodec ext) where
  open ext use {gzip, gunzip, pbkdf2, cbc_encrypt, cbc_decrypt, hmac_sha256}

  -- The fields of a sealed file, by their offsets.
  sealed-fields :
      (r : Draw) (password : Str) (plain tag : List ℕ)
      → IsDrawn r
      → let body = sealed_body ext r password plain in
        (take 8 (drop 2 (body ++ tag)) ≡ r.enc_salt)
        × (take 8 (drop 10 (body ++ tag)) ≡ r.mac_salt)
        × (take 16 (drop 18 (body ++ tag)) ≡ r.iv)
        × (drop header_len body ≡ cbc_encrypt (pbkdf2 (utf8 password) r.enc_salt) r.iv plain)
        × (header_len ≤ length body)
        × (wrong_version (body ++ tag) ≡ false)
  unfolding sealed_body wrong_version
  sealed-fields r password plain tag d =
      let cipher = cbc_encrypt (pbkdf2 (utf8 password) r.enc_salt) r.iv plain in
      let after_iv = r.iv ++ (cipher ++ tag) in
      let after_mac = r.mac_salt ++ after_iv in
      let shape : (r.enc_salt ++ (r.mac_salt ++ (r.iv ++ cipher))) ++ tag
          ≡ r.enc_salt ++ after_mac =
        ++-assoc r.enc_salt (r.mac_salt ++ (r.iv ++ cipher)) tag
        ∙ ap (λ z. r.enc_salt ++ z)
            (++-assoc r.mac_salt (r.iv ++ cipher) tag
              ∙ ap (λ z. r.mac_salt ++ z) (++-assoc r.iv cipher tag)) in
      let eight = drop-append 8 r.enc_salt after_mac d.enc_salt in
      let sixteen : drop 16 (r.enc_salt ++ after_mac) ≡ after_iv =
        drop-drop 8 8 (r.enc_salt ++ after_mac)
        ∙ ap (drop 8) eight
        ∙ drop-append 8 r.mac_salt after_iv d.mac_salt in
      let inner : drop 32 (r.enc_salt ++ (r.mac_salt ++ (r.iv ++ cipher))) ≡ cipher =
        drop-drop 8 24 (r.enc_salt ++ (r.mac_salt ++ (r.iv ++ cipher)))
        ∙ ap (drop 24) (drop-append 8 r.enc_salt (r.mac_salt ++ (r.iv ++ cipher)) d.enc_salt)
        ∙ drop-drop 8 16 (r.mac_salt ++ (r.iv ++ cipher))
        ∙ ap (drop 16) (drop-append 8 r.mac_salt (r.iv ++ cipher) d.mac_salt)
        ∙ drop-append 16 r.iv cipher d.iv in
      (
        ap (take 8) shape ∙ take-append 8 r.enc_salt after_mac d.enc_salt,
        ap (λ z. take 8 (drop 8 z)) shape
            ∙ ap (take 8) eight
            ∙ take-append 8 r.mac_salt after_iv d.mac_salt,
        ap (λ z. take 16 (drop 16 z)) shape
            ∙ ap (take 16) sixteen
            ∙ take-append 16 r.iv (cipher ++ tag) d.iv,
        inner,
        omega (
          arith,
          d.enc_salt,
          d.mac_salt,
          d.iv,
          length-append r.enc_salt (r.mac_salt ++ (r.iv ++ cipher)),
          length-append r.mac_salt (r.iv ++ cipher),
          length-append r.iv cipher,
        ),
        refl,
      )

  -- Decryption, given the fields of the file.
  opened :
      (password : Str) (sealed body tag salt mac_salt iv cipher plain : List ℕ)
      → ltb (length sealed) (header_len + mac_len) ≡ false
      → wrong_version sealed ≡ false
      → take (length sealed - mac_len) sealed ≡ body
      → drop (length sealed - mac_len) sealed ≡ tag
      → take 8 (drop 2 sealed) ≡ salt
      → take 8 (drop 10 sealed) ≡ mac_salt
      → take 16 (drop 18 sealed) ≡ iv
      → drop header_len body ≡ cipher
      → hmac_sha256 (pbkdf2 (utf8 password) mac_salt) body ≡ tag
      → cbc_decrypt (pbkdf2 (utf8 password) salt) iv cipher ≡ some plain
      → decrypt ext password sealed ≡ ok plain
  unfolding decrypt
  opened password sealed body tag salt mac_salt iv cipher plain short version b t s m i c mac
        open_cipher =
      rw (decrypt, short, version, b, t, s, m, i, c, mac, str_eq_refl tag, open_cipher) refl

  -- Decryption with the same password gives the plain bytes back.
  pub decrypt-encrypt :
      (r : Draw) (password : Str) (plain : List ℕ)
      → IsDrawn r
      → decrypt ext password (encrypt ext r password plain) ≡ ok plain
  unfolding decrypt encrypt
  decrypt-encrypt r password plain d =
      let body = sealed_body ext r password plain in
      let tag = hmac_sha256 (pbkdf2 (utf8 password) r.mac_salt) body in
      let (salt, mac_salt, iv, cipher, long, version) = sealed-fields r password plain tag d in
      let n = codec.mac (pbkdf2 (utf8 password) r.mac_salt) body in
      let short : ltb (length (body ++ tag)) (header_len + mac_len) ≡ false =
        ground (arith, long, n, length-append body tag) in
      let parts : (take (length (body ++ tag) - mac_len) (body ++ tag) ≡ body)
          × (drop (length (body ++ tag) - mac_len) (body ++ tag) ≡ tag) =
        subst
          (λ k.
            (take (length (body ++ tag) - k) (body ++ tag) ≡ body)
            × (drop (length (body ++ tag) - k) (body ++ tag) ≡ tag))
          n (split_tail body tag) in
      opened password (body ++ tag) body tag r.enc_salt r.mac_salt r.iv
        (cbc_encrypt (pbkdf2 (utf8 password) r.enc_salt) r.iv plain) plain short version parts.0
        parts.1 salt mac_salt iv cipher refl
        (codec.decrypt-encrypt (pbkdf2 (utf8 password) r.enc_salt) r.iv plain)

  open_plain :
      (bs : List ℕ) (password : Option Str) → open_frame ext (txt "plnd" ++ bs) password ≡ gunzip bs
  unfolding open_frame txt str_eq starts_with
  open_plain bs password = refl

  open_sealed :
      (bs : List ℕ) (password : Str)
      → open_frame ext (txt "pswd" ++ bs) (some password) ≡ (decrypt ext password bs >>= gunzip)
  unfolding open_frame txt str_eq starts_with
  open_sealed bs password = refl

  open_frame-frame :
      (r : Draw) (xml : Str) (password : Option Str)
      → IsDrawn r
      → open_frame ext (frame ext r xml password) password ≡ ok (utf8 xml)
  unfolding frame
  open_frame-frame r xml none d = open_plain (gzip (utf8 xml)) none ∙ codec.gunzip-gzip (utf8 xml)
  open_frame-frame r xml (some []) d =
      open_plain (gzip (utf8 xml)) (some []) ∙ codec.gunzip-gzip (utf8 xml)
  open_frame-frame r xml (some (c ∷ pw)) d =
      open_sealed (encrypt ext r (c ∷ pw) (gzip (utf8 xml))) (c ∷ pw)
      ∙ ap (λ z. z >>= gunzip) (decrypt-encrypt r (c ∷ pw) (gzip (utf8 xml)) d)
      ∙ codec.gunzip-gzip (utf8 xml)

  -- A file that is written, with a password or without one, is read back with the same password:
  -- `decode` gives the bytes of the XML; the empty password counts as none.
  pub decode-encode :
      (r : Draw) (xml : Str) (password : Option Str)
      → IsDrawn r
      → decode ext (encode ext r xml password) password ≡ ok (utf8 xml)
  unfolding decode encode
  decode-encode r xml password d =
      let bytes = frame ext r xml password in
      rw (decode, codec.gzip_magic bytes, codec.gunzip-gzip bytes)
        (open_frame-frame r xml password d)
