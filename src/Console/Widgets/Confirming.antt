-- ===== src/Console/Widgets/Confirming.antt =====
-- When the button that wants two clicks confirms.
use riscv_exam_computer.Base.{◌≡◌, ◌↔◌, Bool, true, false, Option, none, some, List, [], ◌∷◌, arith}
use riscv_exam_computer.Console.Widgets.{Press, press, trace}

abbrev FirstClick : Option (Press × Bool) → Type 0
FirstClick before = before ≡ some (Press.click, false)

-- A press confirms exactly if it is a click and the press before it is a click that did not.
abbrev pub AreTwoClicks : Option (Press × Bool) → List (Press × Bool) → Type 0
AreTwoClicks before [] = Unit
AreTwoClicks before ((p, c) ∷ ps) =
    ((c ≡ true) ↔ ((p ≡ Press.click) × FirstClick before)) × AreTwoClicks (some (p, c)) ps

press-confirms :
    (p : Press) (armed : Bool) (before : Option (Press × Bool))
    → (armed ≡ true) ↔ FirstClick before
    → (((press p armed).1 ≡ true) ↔ ((p ≡ Press.click) × FirstClick before))
      × (((press p armed).0 ≡ true) ↔ FirstClick (some (p, (press p armed).1)))
unfolding press
press-confirms Press.click true before h = ground arith
press-confirms Press.click false before h = ground arith
press-confirms Press.timeout armed before h = ground arith
press-confirms Press.blur armed before h = ground arith

trace_from-AreTwoClicks :
    (ps : List Press) (armed : Bool) (before : Option (Press × Bool))
    → (armed ≡ true) ↔ FirstClick before
    → AreTwoClicks before (trace armed ps)
unfolding trace
trace_from-AreTwoClicks [] armed before h = tt
trace_from-AreTwoClicks (p ∷ ps) armed before h =
    let (now, next) = press-confirms p armed before h in
    (now, trace_from-AreTwoClicks ps (press p armed).0 (some (p, (press p armed).1)) next)

-- Over any presses of a new button, a press confirms exactly if it is a click that directly follows a
-- click that did not confirm: a timeout or a blur in between disarms the button.
trace-AreTwoClicks : (ps : List Press) → AreTwoClicks none (trace false ps)
trace-AreTwoClicks ps = trace_from-AreTwoClicks ps false none (λ h. cc, λ h. cc)
