-- ===== src/SebFile/Settings.antt =====
-- `exam_settings`: the dictionary that goes into an exam's `.seb`.
pub mod Rules
use Prim.Native.String.{String}
use riscv_exam_computer.Base.{
  ℕ, Bool, true, false, not, ◌||◌, Option, none, some, List, [], ◌∷◌, ◌++◌, if◌then◌else◌, any,
  null, opt_filter, Result, ok, ◌>>=◌, Str, txt, str_eq, ends_with, trim, utf8,
}
use riscv_exam_computer.Base.Words.{ℤ, pos}
use riscv_exam_computer.Seb.{ExamSpec, url_host, normalize_domain, domain_rule, effective_domains}
use riscv_exam_computer.SebFile.Values.{Value, Values, Entries, Ext}
use riscv_exam_computer.SebFile.Hex.{hex}
use riscv_exam_computer.SebFile.Json.{put}

pub record SebOptions : Type 0 where
  pub start_url_override : Option Str
  pub exam_key_salt : List ℕ
  pub quit_password : Option Str

-- `riscv-exam-env_` and the crate's version.
abbrev originator : Str
originator = txt "riscv-exam-env_0.3.0"

abbrev purpose_start_exam : ℤ
purpose_start_exam = pos 0

abbrev filter_allow : ℤ
filter_allow = pos 1

abbrev rule_entries : Str → Entries
rule_entries d = Entries.entry (txt "action") (Value.integer filter_allow) (
    Entries.entry (txt "active") (Value.boolean true) (
      Entries.entry (txt "expression") (Value.string (domain_rule d))
        (Entries.entry (txt "regex") (Value.boolean true) Entries.end)))

unfoldable pub rule_values : List Str → Values
rule_values [] = Values.nil
rule_values (d ∷ ds) = Values.cons (Value.dictionary (rule_entries d)) (rule_values ds)

-- The domains to allow and the URL to start at: the gate's host is added unless a domain covers it.
unfoldable pub with_override : ExamSpec → Option Str → List Str → Result Str (List Str × Str)
with_override spec none domains = ok (domains, trim spec.start_url)
with_override spec (some u) domains = do
  host ← url_host u
  let covers = any (λ d. str_eq host d || ends_with host (b'.' ∷ d)) domains
  all_domains ←
      if covers then ok domains else (do d ← normalize_domain host; ok (domains ++ d ∷ []))
  ok (all_domains, trim u)

abbrev switch : String → Bool → Entries → Entries
switch key b d = put (txt key) (Value.boolean b) d

-- Each `put` in the order of the source, on the dictionary so far.
unfoldable pub handshake_entries : Str → List ℕ → Entries
handshake_entries start_url salt =
    let d = put (txt "originatorVersion") (Value.string originator) Entries.end in
    let d = put (txt "sebConfigPurpose") (Value.integer purpose_start_exam) d in
    let d = put (txt "startURL") (Value.string start_url) d in
    let d = switch "restartExamUseStartURL" true d in
    let d = switch "sendBrowserExamKey" true d in
    if null salt then d else put (txt "examKeySalt") (Value.bytes salt) d

unfoldable pub window_entries : Entries → Entries
window_entries d =
    let d = switch "enableBrowserWindowToolbar" true d in
    let d = switch "browserWindowAllowAddressBar" false d in
    let d = switch "browserWindowAllowReload" true d in switch "showReloadButton" true d

module _ (ext : Ext) where
  unfoldable pub lockdown_entries : List Str → Bool → Option Str → Entries → Entries
  unfolding hex rule_values
  lockdown_entries domains allow_quit password d =
      let d = switch "URLFilterEnable" true d in
      let d = switch "URLFilterEnableContentFilter" true d in
      let d = put (txt "URLFilterRules") (Value.array (rule_values domains)) d in
      let d = switch "allowQuit" allow_quit d in
      let d : Entries = elim (opt_filter (λ p. not (null p)) password) [
        | none ↦ d
        | some pw ↦ put (txt "hashedQuitPassword") (Value.string (hex (ext.sha256 (utf8 pw)))) d
      ] in
      let d = switch "downloadAndOpenSebConfig" false d in
      let d = switch "allowDownUploads" false d in
      let d = switch "allowDownloads" false d in
      let d = switch "allowUploads" false d in
      let d = switch "allowSpellCheck" false d in
      let d = switch "allowDeveloperConsole" false d in
      let d = switch "examSessionClearCookiesOnStart" true d in
      switch "examSessionClearCookiesOnEnd" true d

  unfoldable pub exam_settings : ExamSpec → SebOptions → Result Str Entries
  unfolding with_override handshake_entries lockdown_entries window_entries
  exam_settings spec opts = do
    domains ← effective_domains spec
    chosen ← with_override spec opts.start_url_override domains
    ok (
        window_entries (
          lockdown_entries chosen.0 spec.allow_quit opts.quit_password
            (handshake_entries chosen.1 opts.exam_key_salt)))
