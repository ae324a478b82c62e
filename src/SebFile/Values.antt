-- ===== src/SebFile/Values.antt =====
-- Property list values, and the crates and system services that seb_file.rs calls.
use riscv_exam_computer.Base.{ℕ, Bool, Option, List, Str, Result}
use riscv_exam_computer.Base.Words.{ℤ}
use riscv_exam_computer.Proto.{Json}

-- `plist::Value`: the variants that the source matches. A dictionary keeps its entries in the order
-- in which they were put in, as the crate's map does; a real is its bit pattern, a date a number.
mutual
  pub data Value : Type 0 where
    dictionary : Entries → Value
    array : Values → Value
    boolean : Bool → Value
    integer : ℤ → Value
    real : ℕ → Value
    string : Str → Value
    bytes : List ℕ → Value
    date : ℕ → Value
    uid : ℕ → Value

  pub data Values : Type 0 where
    nil : Values
    cons : Value → Values → Values

  pub data Entries : Type 0 where
    end : Entries
    entry : Str → Value → Entries → Entries

-- What the program calls and does not implement: sha2, base64, plist, serde_json, flate2, pbkdf2, aes/cbc and
-- hmac, and from the standard library the text of a float and Unicode case folding.
pub record Ext : Type 0 where
  pub sha256 : List ℕ → List ℕ
  pub base64 : List ℕ → Str
  pub write_xml : Entries → Str
  pub pretty_json : Json → Str
  pub date_xml : ℕ → Str
  pub format_f64 : ℕ → Str
  pub to_lowercase : Str → Str
  pub gzip : List ℕ → List ℕ
  pub gunzip : List ℕ → Result Str (List ℕ)
  pub pbkdf2 : List ℕ → List ℕ → List ℕ
  pub cbc_encrypt : List ℕ → List ℕ → List ℕ → List ℕ
  pub cbc_decrypt : List ℕ → List ℕ → List ℕ → Option (List ℕ)
  pub hmac_sha256 : List ℕ → List ℕ → List ℕ
