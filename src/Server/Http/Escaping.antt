-- ===== src/Server/Http/Escaping.antt =====
-- What `html_escape` lets through.
use riscv_exam_computer.Base.{
  ℕ, ◌≡◌, refl, ap, ◌∙◌, Bool, false, ◌||◌, [], ◌∷◌, ◌++◌, arith, any, ◌==◌, Str, txt,
}
use riscv_exam_computer.Server.Http.{escape_html_char, html_escape}

-- The characters that could end a text or an attribute value.
abbrev pub is_markup : ℕ → Bool
is_markup c = c == b'<' || c == b'>' || c == b'"' || c == b'\''

any-append : (p : ℕ → Bool) (s t : Str) → any p (s ++ t) ≡ (any p s || any p t)
any-append p [] t = refl
any-append p (x ∷ s) t = ground (arith, any-append p s t)

escape_html_char-plain : (c : ℕ) → any is_markup (escape_html_char c) ≡ false
unfolding escape_html_char txt
escape_html_char-plain c = ground arith

-- No escaped text has an angle bracket or a quotation mark.
html_escape-plain : (s : Str) → any is_markup (html_escape s) ≡ false
unfolding html_escape
html_escape-plain [] = refl
html_escape-plain (c ∷ s) =
    any-append is_markup (escape_html_char c) (html_escape s)
    ∙ ap (λ b. b || any is_markup (html_escape s)) (escape_html_char-plain c)
    ∙ html_escape-plain s
