-- ===== src/Tests/Settings.antt =====
-- Domains, settings files and the Config Key.
use riscv_exam_computer.Base.{
  ℕ, suc, ◌≤◌, ◌≡◌, ◌↔◌, refl, Bool, true, false, Option, none, some, List, [], ◌∷◌, arith, All,
  length, any, Result, ok, err, Str, txt, split, str_eq, utf8, trim, to_ascii_lowercase,
}
use riscv_exam_computer.Base.Words.{ℤ}
use riscv_exam_computer.Seb.{
  normalize_domain, normalize_fuel, effective_domains, parse_domain_list, is_list_separator,
  max_domains,
}
use riscv_exam_computer.Seb.Covering.{IsEffective, effective_domains-IsEffective}
use riscv_exam_computer.Seb.Domains.{normalize_fuel-enough}
use riscv_exam_computer.Seb.Normal.{IsDomain, normalize_domain-IsDomain}
use riscv_exam_computer.Seb.Listed.{Distinct, IsTaken, parse_domain_list-IsTaken}
use riscv_exam_computer.SebFile.Values.{Value, Entries}
use riscv_exam_computer.SebFile.Json.{put}
use riscv_exam_computer.SebFile.Keys.{config_key, config_key_hash, verify_config_key_hash}
use riscv_exam_computer.SebFile.Keys.Order.{Alike, AlikeValue, config_key-Alike}
use riscv_exam_computer.SebFile.Keys.Comparison.{verify_config_key_hash_iff}
use riscv_exam_computer.SebFile.Container.{Draw, encode, decode}
use riscv_exam_computer.SebFile.Container.RoundTrip.{IsCodec, decode-encode}
use riscv_exam_computer.Tests.Data.{plain_ext, exam_spec}

normalize_domain-IsDomain_example :
    IsDomain (txt "a.edu") × (normalize_domain (txt "a.edu") ≡ ok (txt "a.edu"))
unfolding normalize_domain txt riscv_exam_computer.Base.contains_str trim to_ascii_lowercase
    riscv_exam_computer.Base.utf8_len split riscv_exam_computer.Base.is_ascii_alphanumeric
normalize_domain-IsDomain_example = normalize_domain-IsDomain (txt " *.A.edu. ") (txt "a.edu") refl

normalize_fuel-enough_example :
    normalize_fuel (suc (suc 3)) (txt "https://a.edu/x") ≡ normalize_domain (txt "https://a.edu/x")
normalize_fuel-enough_example = normalize_fuel-enough 3 (txt "https://a.edu/x")

abbrev listed : Str
listed = txt "a.edu, b.org,a.edu"

parse_domain_list-IsTaken_example :
    (length (txt "a.edu" ∷ txt "b.org" ∷ []) ≤ max_domains)
    × Distinct (txt "a.edu" ∷ txt "b.org" ∷ [])
    × All (IsTaken (txt "a.edu" ∷ txt "b.org" ∷ [])) (split is_list_separator listed)
unfolding parse_domain_list txt split trim normalize_domain riscv_exam_computer.Base.contains_str
    to_ascii_lowercase riscv_exam_computer.Base.utf8_len
    riscv_exam_computer.Base.is_ascii_alphanumeric riscv_exam_computer.Base.mem_str
parse_domain_list-IsTaken_example =
    parse_domain_list-IsTaken listed (txt "a.edu" ∷ txt "b.org" ∷ []) refl

effective_domains-IsEffective_example : IsEffective exam_spec (txt "a.edu" ∷ [])
unfolding effective_domains txt riscv_exam_computer.Seb.url_host
    riscv_exam_computer.Base.strip_prefix trim split riscv_exam_computer.Base.rsplit_once
    riscv_exam_computer.Base.contains_str to_ascii_lowercase riscv_exam_computer.Base.utf8_len
    riscv_exam_computer.Base.is_ascii_alphanumeric riscv_exam_computer.Base.str_eq
    riscv_exam_computer.Base.ends_with
effective_domains-IsEffective_example =
    effective_domains-IsEffective exam_spec (txt "a.edu" ∷ []) refl

plain_ext-IsCodec : IsCodec plain_ext
unfolding riscv_exam_computer.Base.starts_with
plain_ext-IsCodec = record {
  gunzip-gzip = λ bs. refl;
  gzip_magic = λ bs. refl;
  decrypt-encrypt = λ key iv plain. refl;
  mac = λ key bs. refl;
}

abbrev draw : Draw
draw = record {
  enc_salt = 1 ∷ 2 ∷ 3 ∷ 4 ∷ 5 ∷ 6 ∷ 7 ∷ 8 ∷ [];
  mac_salt = 1 ∷ 2 ∷ 3 ∷ 4 ∷ 5 ∷ 6 ∷ 7 ∷ 8 ∷ [];
  iv = 1 ∷ 2 ∷ 3 ∷ 4 ∷ 5 ∷ 6 ∷ 7 ∷ 8 ∷ 1 ∷ 2 ∷ 3 ∷ 4 ∷ 5 ∷ 6 ∷ 7 ∷ 8 ∷ [];
}

decode-encode_example :
    decode plain_ext
      (encode plain_ext draw (txt "<plist/>") (some (txt "secret")))
      (some (txt "secret"))
    ≡ ok (utf8 (txt "<plist/>"))
decode-encode_example =
    decode-encode plain_ext plain_ext-IsCodec draw (txt "<plist/>") (some (txt "secret"))
      (record { enc_salt = refl; mac_salt = refl; iv = refl })

verify_config_key_hash_iff_example :
    (verify_config_key_hash plain_ext (txt "https://a.edu/#x") (txt "ab") (txt " 41 ") ≡ true) ↔ (
      utf8 (config_key_hash plain_ext (txt "https://a.edu/#x") (txt "ab"))
      ≡ utf8 (to_ascii_lowercase (trim (txt " 41 "))))
verify_config_key_hash_iff_example =
    verify_config_key_hash_iff plain_ext (txt "https://a.edu/#x") (txt "ab") (txt " 41 ")

-- Two keys that differ in case only, beside a dictionary of two entries.
abbrev inner : Entries
inner =
    Entries.entry (txt "b") (Value.boolean true)
      (Entries.entry (txt "a") (Value.string (txt "x")) Entries.end)

abbrev inner_sorted : Entries
inner_sorted =
    Entries.entry (txt "a") (Value.string (txt "x"))
      (Entries.entry (txt "b") (Value.boolean true) Entries.end)

abbrev settings : Entries
settings =
    Entries.entry (txt "allowWLAN") (Value.dictionary inner)
      (Entries.entry (txt "allowWlan") (Value.boolean false) Entries.end)

abbrev settings_sorted : Entries
settings_sorted =
    Entries.entry (txt "allowWlan") (Value.boolean false)
      (Entries.entry (txt "allowWLAN") (Value.dictionary inner_sorted) Entries.end)

settings-Alike : Alike settings settings_sorted
unfolding str_eq txt
settings-Alike =
    let rest = Entries.entry (txt "allowWlan") (Value.boolean false) Entries.end in
    Alike.follow settings (Entries.entry (txt "allowWLAN") (Value.dictionary inner_sorted) rest)
      settings_sorted
      (Alike.keep (txt "allowWLAN") (Value.dictionary inner) (Value.dictionary inner_sorted) rest
        rest
        (AlikeValue.dictionary inner inner_sorted (
          Alike.trade (txt "b") (txt "a") (Value.boolean true) (Value.string (txt "x")) Entries.end
            refl))
        (Alike.same rest))
      (Alike.trade (txt "allowWLAN") (txt "allowWlan") (Value.dictionary inner_sorted)
        (Value.boolean false) Entries.end refl)

config_key-Alike_example :
    config_key plain_ext (put (txt "originatorVersion") (Value.integer (ℤ.pos 1)) settings)
    ≡ config_key plain_ext settings_sorted
config_key-Alike_example =
    config_key-Alike plain_ext settings settings_sorted (Value.integer (ℤ.pos 1)) settings-Alike
