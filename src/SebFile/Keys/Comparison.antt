-- ===== src/SebFile/Keys/Comparison.antt =====
-- What `verify_config_key_hash` compares without an early exit.
use Prim.Native.Nat.{bit_or, bit_xor}
use riscv_exam_computer.Base.{
  ℕ, ◌≡◌, ◌↔◌, refl, sym, ap, ◌∙◌, true, List, [], ◌∷◌, arith, ◌==◌, ==_iff, &&-eq-true, length,
  Str, trim, to_ascii_lowercase, utf8,
}
use riscv_exam_computer.SebFile.Values.{Ext}
use riscv_exam_computer.SebFile.Keys.{differences, config_key_hash, verify_config_key_hash}
use riscv_exam_computer.SebFile.Keys.Bits.{bit_or-zero, bit_xor-zero, bit_xor-same}

-- The accumulated differences are none only for equal lists.
differences-zero :
    (acc : ℕ) (xs ys : List ℕ)
    → length xs ≡ length ys
    → differences acc xs ys ≡ 0
    → (acc ≡ 0) × (xs ≡ ys)
unfolding differences
differences-zero acc [] [] n h = (h, refl)
differences-zero acc [] (y ∷ ys) n h = absurd (omega (arith, n))
differences-zero acc (x ∷ xs) [] n h = absurd (omega (arith, n))
differences-zero acc (x ∷ xs) (y ∷ ys) n h =
    let (next, rest) = differences-zero (bit_or acc (bit_xor x y)) xs ys (omega (arith, n)) h in
    let (none_before, here) = bit_or-zero acc (bit_xor x y) next in
    let same = bit_xor-zero x y here in (none_before, cc)

differences-same : (xs : List ℕ) → differences 0 xs xs ≡ 0
unfolding differences
differences-same [] = refl
differences-same (x ∷ xs) =
    ap (λ acc. differences acc xs xs) (ap (bit_or 0) (bit_xor-same x)) ∙ differences-same xs

module _ (ext : Ext) where
  -- A received hash is accepted exactly when its bytes, trimmed and in lower case, are those of
  -- the hash for this URL and key.
  pub verify_config_key_hash_iff :
      (url key received : Str)
      → (verify_config_key_hash ext url key received ≡ true)
        ↔ (utf8 (config_key_hash ext url key) ≡ utf8 (to_ascii_lowercase (trim received)))
  unfolding verify_config_key_hash
  verify_config_key_hash_iff url key received =
      let want = utf8 (config_key_hash ext url key) in
      let got = utf8 (to_ascii_lowercase (trim received)) in
      (
        (λ h.
            let (n, d) = &&-eq-true (length want == length got) (differences 0 want got == 0) h in
            (differences-zero 0 want got ((==_iff (length want) (length got)).0 n)
              ((==_iff (differences 0 want got) 0).0 d)).1),
        λ e.
            let n : (length want == length got) ≡ true =
              (==_iff (length want) (length got)).1 (ap length e) in
            let d : (differences 0 want got == 0) ≡ true =
              (==_iff (differences 0 want got) 0).1
                (ap (differences 0 want) (sym e) ∙ differences-same want) in
            rw (n, d) refl,
      )
