-- ===== src/SebFile/Keys.antt =====
-- The Config Key, and the hash of it that SEB sends with each request.
pub mod Bits
pub mod Order
pub mod Comparison
use Prim.Native.Nat.{bit_or, bit_xor}
use riscv_exam_computer.Base.{
  ℕ, ◌≡◌, refl, Bool, ◌&&◌, List, [], ◌∷◌, ◌++◌, ◌==◌, if◌then◌else◌, length, Str, txt, split, trim,
  to_ascii_lowercase, utf8,
}
use riscv_exam_computer.Seb.{first_piece}
use riscv_exam_computer.SebFile.Values.{Entries, Ext}
use riscv_exam_computer.SebFile.Hex.{hex}
use riscv_exam_computer.SebFile.Json.{seb_json}

-- `want.bytes().zip(got.bytes()).fold(acc, |acc, (a, b)| acc | (a ^ b))`.
unfoldable pub differences : ℕ → List ℕ → List ℕ → ℕ
differences acc [] bs = acc
differences acc (a ∷ as') [] = acc
differences acc (a ∷ as') (b ∷ bs) = differences (bit_or acc (bit_xor a b)) as' bs

-- `url.split('#').next().unwrap_or(url)`.
unfoldable pub without_fragment : Str → Str
without_fragment url = first_piece (split (λ c. c == b'#') url)

module _ (ext : Ext) where
  unfoldable pub config_key : Entries → Str
  unfolding hex seb_json
  config_key settings = hex (ext.sha256 (utf8 (seb_json ext settings)))

  unfoldable pub config_key_hash : Str → Str → Str
  unfolding hex without_fragment
  config_key_hash url key = hex (ext.sha256 (utf8 (without_fragment url ++ key)))

  unfoldable pub verify_config_key_hash : Str → Str → Str → Bool
  unfolding config_key_hash differences
  verify_config_key_hash url key received =
      let want = utf8 (config_key_hash url key) in
      let got = utf8 (to_ascii_lowercase (trim received)) in
      length want == length got && differences 0 want got == 0
