-- ===== src/Server/State.antt =====
-- backend/mod.rs: the configuration, the state of the server, saving, and the background loop.
pub mod Saving
use riscv_exam_computer.Base.{
  ℕ, zero, suc, ◌+◌, ◌-◌, ◌*◌, ◌%◌, ◌^◌, Bool, true, false, not, ◌&&◌, ◌||◌, Option, none, some,
  List, [], ◌∷◌, ◌++◌, map, min, max, ltb, leb, ◌==◌, if◌then◌else◌, filter, null, all, is_none,
  unwrap_or, opt_map, opt_bind, opt_filter, Result, is_ok, Str, txt, str_eq, split, trim,
  trim_end_matches, is_ascii_digit,
}
use Prim.Native.String.{String}
use riscv_exam_computer.Base.Words.{u64_mod}
use riscv_exam_computer.Seb.{url_host}
use riscv_exam_computer.SebFile.Values.{Ext}
use riscv_exam_computer.Fleet.Model.{Fleet, Snapshot, Instant, Actor, Level, new}
use riscv_exam_computer.Fleet.Log.{log}
use riscv_exam_computer.Fleet.Exams.{set_public_url}
use riscv_exam_computer.Fleet.Tick.{tick}
use riscv_exam_computer.Fleet.Admin.{from_snapshot, snapshot}
use riscv_exam_computer.Auth.Digests.{Auth}
use riscv_exam_computer.Auth.Digests

pub record ExamBlob : Type 0 where
  pub bytes : List ℕ
  pub etag : Str

pub data CookieSecure : Type 0 where
  always never auto : CookieSecure

pub record Config : Type 0 where
  pub admin_password : Str
  pub agent_token : Option Str
  pub data_dir : Option Str
  pub max_boards : ℕ
  pub allowed_origins : List Str
  pub cookie_secure : CookieSecure
  pub public_url : Option Str

-- The variables that are set, by name.
abbrev pub Env : Type 0
Env = Str → Option Str

abbrev var : Env → String → Option Str
var env k = opt_filter (λ v. not (null v)) (opt_map trim (env (txt k)))

parse_digits : ℕ → Str → ℕ
parse_digits n [] = n
parse_digits n (c ∷ s) = parse_digits (n * 10 + (c - 48)) s

abbrev without_sign : Str → Str
without_sign [] = []
without_sign (c ∷ s) = if c == b'+' then s else c ∷ s

-- `str::parse::<usize>`: an optional plus sign and decimal digits, below 2^64.
unfoldable pub parse_usize : Str → Option ℕ
unfolding parse_digits
parse_usize s =
    let digits = without_sign s in
    let n = parse_digits 0 digits in
    if not (null digits) && all is_ascii_digit digits && ltb n u64_mod then some n else none

unfoldable pub origins_of : Str → List Str
origins_of v =
    filter (λ s. not (null s))
      (map (λ s. trim_end_matches (λ c. c == b'/') (trim s)) (split (λ c. c == b',') v))

unfoldable pub cookie_secure_of : Option Str → CookieSecure
unfolding str_eq
cookie_secure_of none = CookieSecure.auto
cookie_secure_of (some v) =
    if str_eq v (txt "1") || str_eq v (txt "true") || str_eq v (txt "always")
    then CookieSecure.always
    else if str_eq v (txt "0") || str_eq v (txt "false") || str_eq v (txt "never")
    then CookieSecure.never
    else CookieSecure.auto

-- `generated` is what `random_password` draws.
unfoldable pub from_env : Env → Str → Config × Bool
unfolding parse_usize origins_of cookie_secure_of
from_env env generated = (
  record {
    admin_password = unwrap_or (var env "EXAM_ADMIN_PASSWORD") generated;
    agent_token = var env "EXAM_AGENT_TOKEN";
    data_dir = some (unwrap_or (var env "EXAM_DATA_DIR") (txt "data"));
    max_boards =
        min 5000 (max 1 (unwrap_or (opt_bind (var env "EXAM_MAX_BOARDS") parse_usize) 200));
    allowed_origins = unwrap_or (opt_map origins_of (var env "EXAM_ALLOWED_ORIGINS")) [];
    cookie_secure = cookie_secure_of (var env "EXAM_COOKIE_SECURE");
    public_url = var env "EXAM_PUBLIC_URL";
  },
  is_none (var env "EXAM_ADMIN_PASSWORD"),
)

-- `has_store` tells whether there is a store; what it holds is the file system's.
pub record App : Type 0 where
  pub fleet : Fleet
  pub auth : Auth
  pub has_store : Bool
  pub exam_file : Option ExamBlob
  pub allowed_origins : List Str
  pub cookie_secure : CookieSecure

-- What `store.load()` gives, where there is a store: a snapshot, and a warning.
abbrev pub Loaded : Type 0
Loaded = Option (Snapshot × Option Str)

unfoldable pub loaded_fleet : Loaded → ℕ → (ℕ → List ℕ) → ℕ → Fleet
loaded_fleet none max_boards draw wall_ms = new max_boards
loaded_fleet (some (snap, none)) max_boards draw wall_ms = from_snapshot snap max_boards draw
loaded_fleet (some (snap, some warning)) max_boards draw wall_ms =
    log (from_snapshot snap max_boards draw) wall_ms Actor.system Level.warn none warning

unfoldable pub with_public_url : Option Str → Fleet → Fleet
with_public_url none f = f
with_public_url (some u) f = if is_ok (url_host u) then set_public_url f (some u) else f

unfoldable pub note_gate : ℕ → Fleet → Fleet
note_gate wall_ms f =
    if is_none f.public_url
    then log f wall_ms Actor.system Level.warn none (
        txt
          "EXAM_PUBLIC_URL is not set: boards open Canvas directly and the Config Key is not checked")
    else f

module _ (ext : Ext) where
  unfoldable pub new_app : Config → Loaded → (ℕ → List ℕ) → ℕ → App
  unfolding loaded_fleet with_public_url note_gate
  new_app cfg loaded draw wall_ms =
      let f =
        note_gate wall_ms
          (with_public_url cfg.public_url (loaded_fleet loaded cfg.max_boards draw wall_ms)) in
      record {
        fleet = log f wall_ms Actor.system Level.info none (txt "Server started");
        auth = Digests.new ext cfg.admin_password cfg.agent_token;
        has_store = elim loaded [ none ↦ false | some l ↦ true ];
        exam_file = none;
        allowed_origins = cfg.allowed_origins;
        cookie_secure = cfg.cookie_secure;
      }

abbrev pub set_dirty : Bool → App → App
set_dirty b a = record a { fleet = record a.fleet { dirty = b } }

-- The snapshot that is handed to the store, if any; the lock is released before the write.
unfoldable pub take_snapshot : Bool → App → App × Option Snapshot
take_snapshot force a =
    if not a.has_store || (not a.fleet.dirty && not force)
    then (a, none)
    else (set_dirty false a, some (snapshot a.fleet))

-- After the write: a failed one leaves the state to be saved.
unfoldable pub finish_save : Bool → App → App
finish_save written a = if written then a else set_dirty true a

unfoldable pub write_taken : Bool → App × Option Snapshot → App × Option Snapshot
unfolding finish_save
write_taken written (a, none) = (a, none)
write_taken written (a, some snap) = (finish_save written a, some snap)

-- `App::save`: whether it is forced, and whether the write succeeds.
unfoldable pub save : Bool → Bool → App → App × Option Snapshot
unfolding take_snapshot write_taken
save force written a = write_taken written (take_snapshot force a)

unfoldable pub tick_app : Instant → ℕ → App → App
tick_app now wall_ms a = record a { fleet = tick a.fleet now wall_ms }

-- One turn of the loop of `spawn_background`: whether it saves, and by force.
unfoldable pub saves_at : ℕ → Option Bool
saves_at n = if n % 2 == 0 then some (n % 60 == 0) else none
