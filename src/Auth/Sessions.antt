-- ===== src/Auth/Sessions.antt =====
-- Login, the sessions that it opens, and logout.
pub mod Laws
use riscv_exam_computer.Base.{
  ℕ, ◌+◌, ◌*◌, Bool, true, false, not, ◌&&◌, Option, none, some, List, [], ◌∷◌, ◌++◌, ltb, leb,
  ◌==◌, if◌then◌else◌, length, Result, ok, err, Str, str_eq, utf8_len,
}
use riscv_exam_computer.SebFile.Values.{Ext}
use riscv_exam_computer.Fleet.Model.{Instant, from_secs}
use riscv_exam_computer.Auth.Digests.{Auth, Limiter, LoginError, bad_password, rate_limited, digest}
use riscv_exam_computer.Auth.Limiter.{prune, locked, fail, clear_client}

abbrev pub Sessions : Type 0
Sessions = List (List ℕ × Instant)

abbrev pub session_ttl : ℕ
session_ttl = from_secs (12 * 3600)

abbrev pub max_sessions : ℕ
max_sessions = 256

-- `sessions.retain(|_, exp| *exp > now)`.
unfoldable pub drop_expired : Instant → Sessions → Sessions
drop_expired now [] = []
drop_expired now ((k, exp) ∷ s) =
    if ltb now exp then (k, exp) ∷ drop_expired now s else drop_expired now s

-- `HashMap::get`, `remove` and `insert`.
unfoldable pub expiry : List ℕ → Sessions → Option Instant
unfolding str_eq
expiry k [] = none
expiry k ((j, exp) ∷ s) = if str_eq j k then some exp else expiry k s

unfoldable pub close : List ℕ → Sessions → Sessions
unfolding str_eq
close k [] = []
close k ((j, exp) ∷ s) = if str_eq j k then close k s else (j, exp) ∷ close k s

unfoldable pub set_expiry : List ℕ → Instant → Sessions → Sessions
unfolding close
set_expiry k exp s = (k, exp) ∷ close k s

-- `min_by_key` over the entries: the first one with the least expiry. The source's map has no order of its
-- own, so that among equal expiries it may choose another one; the list stands for the order it iterates in.
unfoldable pub soonest : List ℕ × Instant → Sessions → List ℕ
soonest (k, e) [] = k
soonest (k, e) ((j, exp) ∷ s) = soonest (if ltb exp e then (j, exp) else (k, e)) s

unfoldable pub drop_soonest : Sessions → Sessions
unfolding soonest close
drop_soonest [] = []
drop_soonest (e ∷ s) = close (soonest e s) (e ∷ s)

unfoldable pub open_session : List ℕ → Instant → Sessions → Sessions
unfolding drop_expired drop_soonest set_expiry
open_session k now sessions =
    let alive = drop_expired now sessions in
    let room = if leb max_sessions (length alive) then drop_soonest alive else alive in
    set_expiry k (now + session_ttl) room

unfoldable pub is_open : List ℕ → Instant → Sessions → Bool
unfolding expiry
is_open k now s = elim (expiry k s) [ none ↦ false | some exp ↦ ltb now exp ]

module _ (ext : Ext) where
  -- `token` is what `random_hex(32)` draws.
  unfoldable pub login : Auth → Str → Str → Instant → Str → Auth × Result LoginError Str
  unfolding prune locked fail clear_client open_session str_eq
  login a client password now token =
      let lim = prune now a.limiter in
      let b = record a { limiter = lim } in
      if locked client lim
      then (b, err rate_limited)
      else if not (str_eq (digest ext password) a.password)
      then (record a { limiter = fail client now lim }, err bad_password)
      else (
        record a {
          limiter = record lim { per_client = clear_client client lim.per_client };
          sessions = open_session (digest ext token) now a.sessions;
        },
        ok token,
      )

  unfoldable pub session_valid : Auth → Str → Instant → Bool
  unfolding is_open
  session_valid a token now = utf8_len token == 64 && is_open (digest ext token) now a.sessions

  unfoldable pub logout : Auth → Str → Auth
  unfolding close
  logout a token = record a { sessions = close (digest ext token) a.sessions }
