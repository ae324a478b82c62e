-- ===== src/Seb.antt =====
-- exam-env/proto/src/seb.rs: from an instructor's exam setup to the domains that SEB may open.
pub mod Normal
pub mod Domains
pub mod Covering
pub mod Listed
use riscv_exam_computer.Base.{
  ℕ, zero, suc, ◌+◌, ◌≡◌, refl, Bool, true, false, not, ◌&&◌, ◌||◌, Option, none, some, List, [],
  ◌∷◌, ◌++◌, map, ltb, leb, ◌==◌, if◌then◌else◌, length, all, any, filter, null, Result, ok, err,
  ◌>>=◌, ◌>>◌, refuse, ok_or, map_err, Str, txt, str_eq, starts_with, ends_with, contains_str,
  split, trim_start, trim_end_matches, trim, strip_prefix, rsplit_once, mem_str, is_whitespace,
  is_ascii_digit, is_ascii_alphanumeric, to_ascii_lowercase, utf8_len,
}
use Prim.Native.String.{String}
use riscv_exam_computer.Base.Decimal.{decimal}
use riscv_exam_computer.Proto.{Json, Items, Members}

abbrev pub max_domains : ℕ
max_domains = 64

pub record ExamSpec : Type 0 where
  pub start_url : Str
  pub allowed_domains : List Str
  pub allow_quit : Bool
  pub access_code : Str

-- `trim_start_matches("*.")`.
unfoldable pub trim_stars : Str → Str
trim_stars [] = []
trim_stars (a ∷ []) = a ∷ []
trim_stars (a ∷ b ∷ s) =
    let rest = trim_stars s in if a == b'*' && b == b'.' then rest else a ∷ b ∷ s

abbrev pub is_dot : ℕ → Bool
is_dot c = c == b'.'

abbrev pub last_is : ℕ → Str → Bool
last_is c [] = false
last_is c (x ∷ []) = x == c
last_is c (x ∷ y ∷ s) = last_is c (y ∷ s)

abbrev pub first_is : ℕ → Str → Bool
first_is c [] = false
first_is c (x ∷ s) = x == c

abbrev pub label_char : ℕ → Bool
label_char c = is_ascii_alphanumeric c || c == b'-'

-- The test of one label in the loop of `normalize_domain`.
unfoldable pub valid_label : Str → Bool
valid_label l =
    not (null l)
    && leb (utf8_len l) 63
    && not (first_is b'-' l)
    && not (last_is b'-' l)
    && all label_char l

-- `normalize_domain` past its test for "://", on the trimmed input.
unfoldable pub bare_domain : Str → Result Str Str
unfolding trim_stars valid_label
bare_domain input =
    let d = to_ascii_lowercase (trim_end_matches is_dot (trim_start is_dot (trim_stars input))) in
    do
      refuse (null d) (txt "empty domain")
      refuse (ltb 253 (utf8_len d)) (d ++ txt ": too long")
      refuse (not (all valid_label (split is_dot d))) (d ++ txt ": not a valid domain name")
      refuse (not (any is_dot d) && not (str_eq d (txt "localhost")))
          (d ++ txt ": needs a dot, like example.com")
      ok d

abbrev pub ends_authority : ℕ → Bool
ends_authority c = c == b'/' || c == b'?' || c == b'#'

abbrev pub first_piece : List Str → Str
first_piece [] = []
first_piece (s ∷ ss) = s

unfoldable pub strip_scheme : Str → Option Str
strip_scheme url = elim (strip_prefix url (txt "https://")) [
  | some rest ↦ some rest
  | none ↦ strip_prefix url (txt "http://")
]

-- The host part of an authority: what stands before a valid port.
unfoldable pub strip_port : Str → Result Str Str
strip_port authority = elim (rsplit_once b':' authority) [
  | none ↦ ok authority
  | some (h, port) ↦
      if not (null port) && all is_ascii_digit port
      then ok h
      else err (txt "Start URL has an invalid port")
]

abbrev pub authority_of : Str → Str
authority_of rest = first_piece (split ends_authority rest)

abbrev pub normal_host : (Str → Result Str Str) → Str → Result Str Str
normal_host normalize host = map_err (λ e. txt "Start URL host: " ++ e) (normalize host)

-- `url_host` past the scheme.
abbrev pub rest_host : (Str → Result Str Str) → Str → Result Str Str
rest_host normalize rest = do
  refuse (any (λ c. c == b'@') (authority_of rest))
      (txt "Start URL must not contain a user name or password")
  host ← strip_port (authority_of rest)
  normal_host normalize host

-- `url_host`, given the `normalize_domain` that it calls.
unfoldable pub url_host_with : (Str → Result Str Str) → Str → Result Str Str
unfolding strip_scheme strip_port
url_host_with normalize url = do
  rest ← ok_or (strip_scheme (trim url)) (txt "Start URL must begin with https://")
  rest_host normalize rest

-- The two functions call one another. The host that `url_host` passes on holds no slash, so the
-- calls nest at most twice; `Seb.Domains` proves that more fuel changes nothing.
unfoldable pub normalize_fuel : ℕ → Str → Result Str Str
unfolding bare_domain url_host_with
normalize_fuel zero input = err (txt "out of fuel")
normalize_fuel (suc n) input =
    let d = trim input in
    if contains_str d (txt "://") then url_host_with (normalize_fuel n) d else bare_domain d

unfoldable pub normalize_domain : Str → Result Str Str
unfolding normalize_fuel
normalize_domain input = normalize_fuel 2 input

unfoldable pub url_host : Str → Result Str Str
unfolding url_host_with normalize_domain
url_host url = url_host_with normalize_domain url

abbrev escape_dots : Str → Str
escape_dots [] = []
escape_dots (c ∷ s) = if c == b'.' then b'\\' ∷ b'.' ∷ escape_dots s else c ∷ escape_dots s

unfoldable pub domain_rule : Str → Str
domain_rule domain =
    txt "^(https?|wss?)://([^/?#@]*\\.)?" ++ escape_dots domain ++ txt "(:[0-9]+)?([/?#].*)?$"

abbrev pub is_list_separator : ℕ → Bool
is_list_separator c = c == 10 || c == b',' || c == b' ' || c == 9

-- The loop of `parse_domain_list`.
unfoldable pub collect_domains : List Str → List Str → Result Str (List Str)
collect_domains out [] = ok out
collect_domains out (raw ∷ raws) = if null (trim raw) then collect_domains out raws else (do
  d ← normalize_domain raw
  collect_domains (if mem_str d out then out else out ++ d ∷ []) raws)

unfoldable pub parse_domain_list : Str → Result Str (List Str)
unfolding collect_domains
parse_domain_list text = do
  out ← collect_domains [] (split is_list_separator text)
  refuse (ltb max_domains (length out)) (txt "at most " ++ decimal max_domains ++ txt " domains")
  ok out

unfoldable pub covered : Str → Str → Bool
covered d by = str_eq d by || ends_with d (b'.' ∷ by)

-- One round of the second loop of `effective_domains`.
unfoldable pub keep_domain : List Str → Str → List Str
unfolding covered
keep_domain out d =
    if any (λ kept. covered d kept) out
    then out
    else filter (λ kept. not (covered kept d)) out ++ d ∷ []

unfoldable pub keep_domains : List Str → List Str → List Str
unfolding keep_domain
keep_domains out [] = out
keep_domains out (d ∷ ds) = keep_domains (keep_domain out d) ds

unfoldable pub normalize_all : List Str → Result Str (List Str)
normalize_all [] = ok []
normalize_all (d ∷ ds) = do n ← normalize_domain d; ns ← normalize_all ds; ok (n ∷ ns)

unfoldable pub effective_domains : ExamSpec → Result Str (List Str)
unfolding keep_domains normalize_all
effective_domains spec = do
  host ← url_host spec.start_url
  listed ← normalize_all spec.allowed_domains
  ok (keep_domains [] (host ∷ listed))

abbrev rule_items : List Str → Items
rule_items [] = Items.nil
rule_items (d ∷ ds) =
    Items.cons
      (Json.obj (
        Members.member (txt "expression") (Json.str (domain_rule d)) (
          Members.member (txt "result") (Json.str (txt "allow"))
            (Members.member (txt "type") (Json.str (txt "regex")) Members.end))))
      (rule_items ds)

abbrev flag : String → Bool → Members → Members
flag key b rest = Members.member (txt key) (Json.bool b) rest

abbrev section : String → Members → Members → Members
section key inner rest = Members.member (txt key) (Json.obj inner) rest

abbrev filter_members : List Str → Members
filter_members domains = flag "processMainRequests" true (
    flag "processContentRequests" true
      (Members.member (txt "rules") (Json.arr (rule_items domains)) Members.end))

abbrev window_members : Members
window_members = flag "showToolbar" true (
    flag "allowAddressBar" false (
      flag "allowReloading" true (
        flag "showReloadButton" true
          (flag "alwaysOnTop" true (flag "allowMinimize" false Members.end)))))

abbrev browser_members : Str → List Str → Members
browser_members start_url domains = Members.member (txt "startUrl") (Json.str start_url) (
    flag "useStartUrlAsHomeUrl" true (
      flag "allowDownloads" false (
        flag "allowUploads" false (
          flag "allowConfigurationDownloads" false (
            flag "deleteCookiesOnStartup" true (
              flag "deleteCookiesOnShutdown" true (
                section "filter" (filter_members domains)
                  (section "mainWindow" window_members Members.end))))))))

unfoldable pub seb_config : ExamSpec → Result Str Json
seb_config spec = do
  domains ← effective_domains spec
  ok (
      Json.obj (
        section "browser" (browser_members (trim spec.start_url) domains)
          (section "security" (flag "allowTermination" spec.allow_quit Members.end) Members.end)))
