-- ===== src/Base/Decimal.antt =====
-- `format!("{n}")` of an integer.
use Prim.Native.Nat.{ℕ, zero, suc, ◌+◌, ◌-◌, ◌/◌, ◌%◌}
use mathlib.Core.Path.{◌≡◌, refl}
use mathlib.Core.List.{[], ◌∷◌}
use riscv_exam_computer.Base.Tests.{ltb, if◌then◌else◌}
use riscv_exam_computer.Base.Lists.{length}
use riscv_exam_computer.Base.Text.{Str, txt}
use riscv_exam_computer.Base.Words.{ℤ, pos, negsuc}

-- A number has fewer digits than its value plus one, so the fuel below is enough.
decimal_from : ℕ → ℕ → Str → Str
decimal_from zero n acc = acc
decimal_from (suc f) n acc =
    let more = decimal_from f (n / 10) ((48 + n % 10) ∷ acc) in
    if ltb n 10 then (48 + n) ∷ acc else more

unfoldable pub decimal : ℕ → Str
unfolding decimal_from
decimal n = decimal_from (suc n) n []

abbrev zeros_left : ℕ → Str → Str
zeros_left zero s = s
zeros_left (suc n) s = b'0' ∷ zeros_left n s

-- `format!("{n:02}")` and such: zeros up to a width.
unfoldable pub decimal_pad : ℕ → ℕ → Str
unfolding decimal
decimal_pad width n = zeros_left (width - length (decimal n)) (decimal n)

unfoldable pub decimal_int : ℤ → Str
unfolding decimal
decimal_int (pos n) = decimal n
decimal_int (negsuc n) = b'-' ∷ decimal (suc n)

decimal_runs : decimal 5070 ≡ txt "5070"
unfolding decimal txt
decimal_runs = refl
