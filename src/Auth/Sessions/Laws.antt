-- ===== src/Auth/Sessions/Laws.antt =====
-- How long a session is valid, and how many there are.
use riscv_exam_computer.Base.{
  ℕ, ◌+◌, ◌-◌, ◌≤◌, ◌<◌, ◌≡◌, refl, true, false, none, List, [], ◌∷◌, arith, ltb, leb,
  if◌then◌else◌, length, Bool-cases, inl, inr, ok, Str, is_some, str_eq, str_eq_iff, str_eq_refl,
  utf8_len,
}
use riscv_exam_computer.SebFile.Values.{Ext}
use riscv_exam_computer.Fleet.Model.{Instant}
use riscv_exam_computer.Auth.Digests.{Auth, digest}
use riscv_exam_computer.Auth.Limiter.{locked, prune}
use riscv_exam_computer.Auth.Sessions.{
  Sessions, session_ttl, max_sessions, drop_expired, expiry, close, set_expiry, soonest,
  drop_soonest, open_session, is_open, login, session_valid, logout,
}

expiry-close :
    (k j : List ℕ) (s : Sessions) → expiry j (close k s) ≡ (if str_eq k j then none else expiry j s)
unfolding expiry close
expiry-close k j [] = ground arith
expiry-close k j ((i, e) ∷ s) =
    ground (arith, str_eq_iff i k, str_eq_iff k j, str_eq_iff i j, expiry-close k j s)

length-close : (k : List ℕ) (s : Sessions) → length (close k s) ≤ length s
unfolding close
length-close k [] = omega arith
length-close k ((i, e) ∷ s) = ground (arith, length-close k s)

length-drop_expired : (now : Instant) (s : Sessions) → length (drop_expired now s) ≤ length s
unfolding drop_expired
length-drop_expired now [] = omega arith
length-drop_expired now ((i, e) ∷ s) = ground (arith, length-drop_expired now s)

length-close_hit :
    (k : List ℕ) (s : Sessions) → is_some (expiry k s) ≡ true → length (close k s) < length s
unfolding close expiry
length-close_hit k [] h = absurd (cc)
length-close_hit k ((i, e) ∷ s) h = elim (Bool-cases (str_eq i k)) [
  | inl t ↦ rw (t, close) (omega (arith, length-close k s))
  | inr t ↦
      let q : is_some (expiry k s) ≡ true = rw (t, expiry) at h in
      rw (t, close) (omega (arith, length-close_hit k s q))
]

has-weaken :
    (z k : List ℕ) (e : Instant) (s : Sessions)
    → is_some (expiry z s) ≡ true
    → is_some (expiry z ((k, e) ∷ s)) ≡ true
unfolding expiry
has-weaken z k e s h = ground arith

has-swap :
    (z k j : List ℕ) (e exp : Instant) (s : Sessions)
    → is_some (expiry z ((k, e) ∷ s)) ≡ true
    → is_some (expiry z ((k, e) ∷ (j, exp) ∷ s)) ≡ true
unfolding expiry
has-swap z k j e exp s h = ground arith

has_self : (k : List ℕ) (e : Instant) (s : Sessions) → is_some (expiry k ((k, e) ∷ s)) ≡ true
unfolding expiry
has_self k e s = rw (str_eq_refl k) refl

-- The session that expires first is among them.
has-soonest :
    (k : List ℕ) (e : Instant) (s : Sessions)
    → is_some (expiry (soonest (k, e) s) ((k, e) ∷ s)) ≡ true
unfolding soonest
has-soonest k e [] = has_self k e []
has-soonest k e ((j, exp) ∷ s) = elim (Bool-cases (ltb exp e)) [
  | inl l ↦
      rw (l, soonest) (has-weaken (soonest (j, exp) s) k e ((j, exp) ∷ s) (has-soonest j exp s))
  | inr l ↦ rw (l, soonest) (has-swap (soonest (k, e) s) k j e exp s (has-soonest k e s))
]

length-drop_soonest : (s : Sessions) → length (drop_soonest s) ≤ length s - 1
unfolding drop_soonest
length-drop_soonest [] = omega arith
length-drop_soonest ((k, e) ∷ s) =
    omega (arith, length-close_hit (soonest (k, e) s) ((k, e) ∷ s) (has-soonest k e s))

length-open_session :
    (k : List ℕ) (now : Instant) (s : Sessions)
    → length s ≤ max_sessions
    → length (open_session k now s) ≤ max_sessions
unfolding open_session set_expiry
length-open_session k now s h =
    let alive = drop_expired now s in
    let fewer = length-drop_expired now s in
    elim (Bool-cases (leb max_sessions (length alive))) [
      | inl full ↦
          rw (full, open_session)
            (omega
              (arith, fewer, h, length-drop_soonest alive, length-close k (drop_soonest alive)))
      | inr room ↦
          let free : length alive < max_sessions = ground arith in
          rw (room, open_session) (omega (arith, free, length-close k alive))
    ]

is_open-open_session :
    (k : List ℕ) (now later : Instant) (s : Sessions)
    → is_open k later (open_session k now s) ≡ ltb later (now + session_ttl)
unfolding is_open open_session set_expiry expiry
is_open-open_session k now later s = rw (is_open, expiry, str_eq_refl k) refl

module _ (ext : Ext) where
  -- A login, whatever its outcome, leaves at most 256 sessions where there were no more.
  login-max_sessions :
      (a : Auth) (client password : Str) (now : Instant) (token : Str)
      → length a.sessions ≤ max_sessions
      → length (login ext a client password now token).0.sessions ≤ max_sessions
  unfolding login
  login-max_sessions a client password now token h =
      elim (Bool-cases (locked client (prune now a.limiter))) [
        | inl l ↦ rw (l, login) h
        | inr l ↦ elim (Bool-cases (str_eq (digest ext password) a.password)) [
          | inr w ↦ rw (l, w, login) h
          | inl w ↦ rw (l, w, login) (length-open_session (digest ext token) now a.sessions h)
        ]
      ]

  -- The token of a successful login is valid for exactly twelve hours, if it has the 64 bytes that a
  -- token has.
  pub login-session_valid :
      (a : Auth) (client password : Str) (now : Instant) (token : Str) (later : Instant)
      → utf8_len token ≡ 64
      → (login ext a client password now token).1 ≡ ok token
      → session_valid ext (login ext a client password now token).0 token later
        ≡ ltb later (now + session_ttl)
  unfolding login session_valid
  login-session_valid a client password now token later n h =
      elim (Bool-cases (locked client (prune now a.limiter))) [
        | inl l ↦ absurd (let q = rw (l, login) at h in cc)
        | inr l ↦ elim (Bool-cases (str_eq (digest ext password) a.password)) [
          | inr w ↦ absurd (let q = rw (l, w, login) at h in cc)
          | inl w ↦
              rw (l, w, login, n) (is_open-open_session (digest ext token) now later a.sessions)
        ]
      ]

  -- Logout ends the sessions of the token and no session of a token with another digest.
  pub logout-session_valid :
      (a : Auth) (token other : Str) (now : Instant)
      → session_valid ext (logout ext a token) other now ≡ (
          if str_eq (digest ext token) (digest ext other)
          then false
          else session_valid ext a other now)
  unfolding logout session_valid is_open
  logout-session_valid a token other now =
      ground (arith, expiry-close (digest ext token) (digest ext other) a.sessions)
