-- ===== src/Server/Gate.antt =====
-- The gate that opens an exam in Safe Exam Browser only, and the download of `.seb` files.
pub mod Pages
pub mod Starts
pub mod Answers
pub mod Passing
use riscv_exam_computer.Base.{
  ℕ, ◌+◌, ◌*◌, Bool, true, false, not, ◌&&◌, ◌||◌, Option, none, some, List, [], ◌∷◌, ◌++◌, map,
  filter, null, length, ltb, ◌==◌, if◌then◌else◌, unwrap_or, Result, ok, err, ok_or, Str, txt,
  split, strip_prefix, join, is_ascii_alphanumeric, to_ascii_lower,
}
use riscv_exam_computer.Seb.{ExamSpec, first_is}
use riscv_exam_computer.SebFile.Values.{Ext}
use riscv_exam_computer.SebFile.Hex.{hex}
use riscv_exam_computer.SebFile.Keys.{verify_config_key_hash, without_fragment}
use riscv_exam_computer.SebFile.Container.{Draw, encode}
use riscv_exam_computer.Fleet.Model.{Fleet, Exam, SebBuild, Actor, Level}
use riscv_exam_computer.Fleet.Log.{log}
use riscv_exam_computer.Fleet.Exams.{exam, seb_build}
use riscv_exam_computer.Server.State.{App}
use riscv_exam_computer.Server.Http.{
  Request, Response, Body, response, see_other, gate_page, html_escape, header, header_text,
  with_header, csp,
}

pub record GateExam : Type 0 where
  pub config_key : Str
  pub spec : ExamSpec
  pub name : Str
  pub public : Str

abbrev pub config_key_header : Str
config_key_header = txt "x-safeexambrowser-configkeyhash"

unfoldable pub gate_refused : App → GateExam → Str → ℕ → App × Response
gate_refused a g why wall_ms = (
  record a {
    fleet =
        log a.fleet wall_ms Actor.system Level.warn none
          (txt "Gate refused for " ++ g.name ++ txt ": " ++ why);
  },
  gate_page 403 (txt "Open this exam on an exam board") (
      txt "<p>This page only works inside Safe Exam Browser started from the exam console.</p>"
      ++ txt
          "<p class=\"muted\">If you are on an exam board, ask your instructor to restart it.</p>"),
)

abbrev code_page : GateExam → Str
code_page g =
    txt
      "<p>Exam board verified. Enter this access code when Canvas asks for it:</p><p class=\"code\">"
    ++ html_escape g.spec.access_code
    ++ txt "</p><p><a class=\"btn\" href=\""
    ++ html_escape g.spec.start_url
    ++ txt "\">Continue to the exam</a></p>"

unfoldable pub gate_passed : GateExam → Response
unfolding gate_page html_escape
gate_passed g =
    if null g.spec.access_code
    then see_other g.spec.start_url
    else gate_page 200 g.name (code_page g)

abbrev js_csp : Str → Str
js_csp nonce =
    txt "default-src 'none'; script-src 'nonce-"
    ++ nonce
    ++ txt
        "'; style-src 'unsafe-inline'; form-action 'self'; base-uri 'none'; frame-ancestors 'none'"

abbrev js_style : Str
js_style =
    txt
      "<style>body{font:17px/1.5 system-ui,sans-serif;background:#0b0b0d;color:#f5f5f7;display:grid;"
    ++ txt "place-items:center;min-height:100vh;margin:0}"
    ++ txt "main{max-width:34rem;padding:2rem;background:#1c1c20;border-radius:20px}</style>"

abbrev js_script : Str
js_script =
    txt "(function(){var f=document.getElementById('f');"
    ++ txt "function sec(){return window.SafeExamBrowser&&window.SafeExamBrowser.security;}"
    ++ txt
        "function go(){var s=sec();if(!s||!s.configKey){document.getElementById('m').textContent="
    ++ txt "'This page only works inside Safe Exam Browser started from the exam console.';return;}"
    ++ txt "f.elements.url.value=location.href;f.elements.ck.value=s.configKey;f.submit();}"
    ++ txt "var s=sec();if(s&&typeof s.updateKeys==='function'){s.updateKeys(go);}else{go();}})();"

-- `nonce` is what `random_hex(16)` draws.
unfoldable pub gate_js_page : Str → Str → Response
unfolding html_escape
gate_js_page id nonce =
    let page =
      txt "<!doctype html><html lang=\"en\"><head><meta charset=\"utf-8\">"
      ++ txt "<meta name=\"viewport\" content=\"width=device-width, initial-scale=1\">"
      ++ txt "<title>Checking exam board</title>"
      ++ js_style
      ++ txt
          "</head><body><main><h1>Checking exam board…</h1><p id=\"m\">One moment.</p><noscript><p>"
      ++ txt
          "This page only works inside Safe Exam Browser started from the exam console.</p></noscript>"
      ++ txt "<form id=\"f\" method=\"post\" action=\"/gate/"
      ++ html_escape id
      ++ txt
          "/verify\"><input type=\"hidden\" name=\"url\"><input type=\"hidden\" name=\"ck\"></form>"
      ++ txt "<script nonce=\""
      ++ nonce
      ++ txt "\">"
      ++ js_script
      ++ txt "</script></main></body></html>" in
    with_header csp (js_csp nonce) (
      with_header (txt "content-type") (txt "text/html; charset=utf-8")
        (response 200 (Body.html page)))

-- `url.strip_prefix(base)` gives the empty text or one that begins with `?`.
unfoldable pub is_own_page : Str → Str → Bool
unfolding strip_prefix
is_own_page base url = elim (strip_prefix url base) [
  | none ↦ false
  | some r ↦ null r || first_is b'?' r
]

unfoldable pub file_slug : Str → Str
file_slug name = join (txt "-") (
    filter (λ s. not (null s))
      (split (λ c. c == b'-')
        (map (λ c. if is_ascii_alphanumeric c then to_ascii_lower c else b'-') name)))

module _ (ext : Ext) where
  unfoldable pub gate_exam : Fleet → Str → Result Response GateExam
  unfolding exam gate_page html_escape
  gate_exam f id = elim (exam f.exams id) [
    | none ↦ err (
        gate_page 404 (txt "Exam not found")
          (txt "<p class=\"muted\">This exam no longer exists. Ask your instructor.</p>"))
    | some e ↦ elim f.public_url [
      | none ↦ err (
          gate_page 503 (txt "Gate is off")
            (txt "<p class=\"muted\">EXAM_PUBLIC_URL is not set on the exam server.</p>"))
      | some public ↦ elim (seb_build ext f.public_url e) [
        | ok b ↦
            ok (record { config_key = b.config_key; spec = e.spec; name = e.name; public = public })
        | err why ↦ err (
            gate_page 500 (txt "Exam is misconfigured")
              (txt "<p class=\"muted\">" ++ html_escape why ++ txt "</p>"))
      ]
    ]
  ]

  -- The check of the header, on the URL that the browser asked for.
  unfoldable pub check_header : App → Str → GateExam → Str → Option Str → Str → ℕ → App × Response
  unfolding verify_config_key_hash gate_passed gate_refused gate_js_page
  check_header a id g url none nonce wall_ms = (a, gate_js_page id nonce)
  check_header a id g url (some h) nonce wall_ms =
      if verify_config_key_hash ext url g.config_key h
      then (a, gate_passed g)
      else gate_refused a g (txt "wrong Config Key") wall_ms

  unfoldable pub gate : App → Str → Request → Str → ℕ → App × Response
  unfolding gate_exam check_header header
  gate a id req nonce wall_ms = elim (gate_exam a.fleet id) [
    | err res ↦ (a, res)
    | ok g ↦
        check_header a id g (g.public ++ unwrap_or req.path_and_query (txt "/"))
          (header_text config_key_header req.headers) nonce wall_ms
  ]

  unfoldable pub check_form : App → Str → GateExam → Str → Str → ℕ → App × Response
  unfolding is_own_page verify_config_key_hash gate_refused gate_passed
  check_form a id g url ck wall_ms =
      if not (is_own_page (g.public ++ txt "/gate/" ++ id) url)
      then gate_refused a g (txt "JS check for a different page") wall_ms
      else if not (verify_config_key_hash ext url g.config_key ck)
      then gate_refused a g (txt "wrong Config Key (JS API)") wall_ms
      else (a, gate_passed g)

  unfoldable pub gate_verify : App → Str → Str → Str → ℕ → App × Response
  unfolding gate_exam check_form without_fragment
  gate_verify a id url ck wall_ms = elim (gate_exam a.fleet id) [
    | err res ↦ (a, res)
    | ok g ↦ check_form a id g (without_fragment url) ck wall_ms
  ]

  unfoldable pub seb_response : Draw → Str → SebBuild → Option Str → Response
  unfolding file_slug encode
  seb_response r name build password =
      let slug = file_slug name in
      let disposition =
        txt "attachment; filename=\"" ++ (if null slug then txt "exam" else slug) ++ txt ".seb\"" in
      with_header (txt "x-seb-config-key") build.config_key (
        with_header (txt "content-disposition") disposition (
          with_header (txt "content-type") (txt "application/seb")
            (response 200 (Body.raw (encode ext r build.xml password)))))

  unfoldable pub seb_download : Fleet → Draw → Str → Option Str → Response
  unfolding exam seb_response
  seb_download f r id password = elim (exam f.exams id) [
    | none ↦ response 404 (Body.text (txt "Unknown exam"))
    | some e ↦ elim (seb_build ext f.public_url e) [
      | ok b ↦ seb_response r e.name b password
      | err why ↦ response 500 (Body.text why)
    ]
  ]

  unfoldable pub download_seb : App → Draw → Str → Response
  unfolding seb_download
  download_seb a r id = seb_download a.fleet r id none

  unfoldable pub download_seb_locked : App → Draw → Str → Str → Response
  unfolding seb_download
  download_seb_locked a r id password =
      if ltb (length password) 4 || ltb 128 (length password)
      then response 400 (Body.text (txt "Use a password of 4 to 128 characters"))
      else seb_download a.fleet r id (some password)
