-- ===== src/Auth/Limiter/Strikes.antt =====
-- The rate limit over any history of logins, by any clients.
use riscv_exam_computer.Base.{
  ℕ, suc, ◌-◌, ◌≤◌, ◌≡◌, refl, true, false, List, [], ◌∷◌, ◌++◌, arith, All, ltb, if◌then◌else◌,
  length, null, Bool-cases, inl, inr, Result, ok, err, Str, str_eq, str_eq_iff,
}
use riscv_exam_computer.SebFile.Values.{Ext}
use riscv_exam_computer.Fleet.Model.{Instant}
use riscv_exam_computer.Auth.Digests.{Auth, Limiter, LoginError, bad_password, rate_limited, digest}
use riscv_exam_computer.Auth.Limiter.{
  per_client_failures, window, pop_old, prune, prune_clients, failures, add_failure, clear_client,
  locked, fail,
}
use riscv_exam_computer.Auth.Sessions.{login}

pub record Attempt : Type 0 where
  pub client : Str
  pub password : Str
  pub at : Instant
  pub token : Str

-- How many of the failures are within the window at this instant.
unfoldable pub recent : Instant → List Instant → ℕ
recent now [] = 0
recent now (t ∷ q) = let n = recent now q in if ltb window (now - t) then n else suc n

module _ (ext : Ext) where
  unfoldable pub after : Auth → List Attempt → Auth
  after a [] = a
  after a (x ∷ xs) = after (login ext a x.client x.password x.at x.token).0 xs

  abbrev pub strike : ℕ → Result LoginError Str → ℕ
  strike n (err bad_password) = suc n
  strike n (err rate_limited) = n
  strike n (ok token) = 0

  -- The wrong passwords of a client since it last logged in.
  unfoldable pub strikes : Str → ℕ → Auth → List Attempt → ℕ
  strikes client n a [] = n
  strikes client n a (x ∷ xs) =
      let result = login ext a x.client x.password x.at x.token in
      strikes client (if str_eq x.client client then strike n result.1 else n) result.0 xs

recent-le : (now : Instant) (q : List Instant) → recent now q ≤ length q
unfolding recent
recent-le now [] = omega arith
recent-le now (t ∷ q) = ground (arith, recent-le now q)

recent-append :
    (now t : Instant) (q : List Instant)
    → now - t ≤ window
    → recent now (q ++ t ∷ []) ≡ suc (recent now q)
unfolding recent
recent-append now t [] h = ground arith
recent-append now t (s ∷ q) h = ground (arith, recent-append now t q h)

recent-pop_old :
    (now t : Instant) (q : List Instant) → t ≤ now → recent now (pop_old window t q) ≡ recent now q
unfolding recent pop_old
recent-pop_old now t [] h = refl
recent-pop_old now t (s ∷ q) h = ground (arith, recent-pop_old now t q h)

recent-empty : (now : Instant) (p : List Instant) → null p ≡ true → recent now p ≡ 0
unfolding recent
recent-empty now [] n = refl
recent-empty now (x ∷ p) n = absurd (cc)

-- Pruning takes away no failure that still counts.
recent-prune :
    (now t : Instant) (client : Str) (m : List (Str × List Instant))
    → t ≤ now
    → recent now (failures client m) ≤ recent now (failures client (prune_clients t m))
unfolding failures prune_clients
recent-prune now t client [] h = omega arith
recent-prune now t client ((c, q) ∷ m) h =
    let kept = recent-pop_old now t q h in
    let rest = recent-prune now t client m h in
    elim (Bool-cases (null (pop_old window t q))) [
      | inl n ↦ elim (Bool-cases (str_eq c client)) [
        | inl e ↦ rw (n, e, failures) (omega (arith, kept, recent-empty now (pop_old window t q) n))
        | inr e ↦ rw (n, e, failures) rest
      ]
      | inr n ↦ elim (Bool-cases (str_eq c client)) [
        | inl e ↦ rw (n, e, failures) (omega (arith, kept))
        | inr e ↦ rw (n, e, failures) rest
      ]
    ]

failures-add :
    (client other : Str) (t : Instant) (m : List (Str × List Instant))
    → failures client (add_failure other t m)
      ≡ (if str_eq other client then failures client m ++ t ∷ [] else failures client m)
unfolding failures add_failure
failures-add client other t [] = ground arith
failures-add client other t ((c, q) ∷ m) = ground (
  arith,
  failures-add client other t m,
  str_eq_iff c other,
  str_eq_iff c client,
  str_eq_iff other client,
)

failures-clear :
    (client other : Str) (m : List (Str × List Instant))
    → str_eq other client ≡ false
    → failures client (clear_client other m) ≡ failures client m
unfolding failures clear_client
failures-clear client other [] h = refl
failures-clear client other ((c, q) ∷ m) h = ground (
  arith,
  failures-clear client other m h,
  str_eq_iff c other,
  str_eq_iff c client,
  str_eq_iff other client,
)

module _ (ext : Ext) where
  -- One login counts against its client at least as a strike does.
  login-recent :
      (client : Str) (n : ℕ) (a : Auth) (x : Attempt) (now : Instant)
      → x.at ≤ now
      → now - x.at ≤ window
      → n ≤ recent now (failures client a.limiter.per_client)
      → (if str_eq x.client client
          then strike ext n (login ext a x.client x.password x.at x.token).1
          else n)
        ≤ recent now
            (failures client (login ext a x.client x.password x.at x.token).0.limiter.per_client)
  unfolding login prune fail
  login-recent client n a x now before within h =
      let m = a.limiter.per_client in
      let pruned = prune_clients x.at m in
      let kept = recent-prune now x.at client m before in
      elim (Bool-cases (locked x.client (prune x.at a.limiter))) [
        | inl l ↦ rw (l, login) (ground (arith, kept, h))
        | inr l ↦ elim (Bool-cases (str_eq (digest ext x.password) a.password)) [
          | inr w ↦
              rw (l, w, login)
                (ground (
                  arith,
                  kept,
                  h,
                  failures-add client x.client x.at pruned,
                  recent-append now x.at (failures client pruned) within,
                ))
          | inl w ↦ elim (Bool-cases (str_eq x.client client)) [
            | inl e ↦ rw (l, w, e, login) (omega arith)
            | inr e ↦
                rw (l, w, e, login)
                  (rw (failures-clear client x.client pruned e) (omega (arith, kept, h)))
          ]
        ]
      ]

  strikes-recent :
      (client : Str) (n : ℕ) (a : Auth) (xs : List Attempt) (now : Instant)
      → All (λ (x : Attempt). (x.at ≤ now) × (now - x.at ≤ window)) xs
      → n ≤ recent now (failures client a.limiter.per_client)
      → strikes ext client n a xs ≤ recent now (failures client (after ext a xs).limiter.per_client)
  unfolding strikes after
  strikes-recent client n a [] now t h = h
  strikes-recent client n a (x ∷ xs) now ((before, within), t) h =
      strikes-recent client
        (if str_eq x.client client
          then strike ext n (login ext a x.client x.password x.at x.token).1
          else n)
        (login ext a x.client x.password x.at x.token).0 xs now t
        (login-recent client n a x now before within h)

  locked-login :
      (a : Auth) (client password : Str) (now : Instant) (token : Str)
      → locked client (prune now a.limiter) ≡ true
      → (login ext a client password now token).1 ≡ err rate_limited
  unfolding login
  locked-login a client password now token l = rw (l, login) refl

  recent-locked :
      (lim : Limiter) (client : Str) (now : Instant)
      → per_client_failures ≤ recent now (failures client lim.per_client)
      → locked client (prune now lim) ≡ true
  unfolding locked prune
  recent-locked lim client now h =
      let kept = recent-prune now now client lim.per_client (omega arith) in
      ground (arith, kept, h, recent-le now (failures client (prune_clients now lim.per_client)))

  -- Whatever logins of any clients went before, all within the last five minutes, a client with five
  -- wrong passwords since its last login is rate limited, whatever password it tries.
  pub strikes-rate_limited :
      (client : Str) (a : Auth) (xs : List Attempt) (password : Str) (now : Instant) (token : Str)
      → All (λ (x : Attempt). (x.at ≤ now) × (now - x.at ≤ window)) xs
      → per_client_failures ≤ strikes ext client 0 a xs
      → (login ext (after ext a xs) client password now token).1 ≡ err rate_limited
  strikes-rate_limited client a xs password now token t h =
      let counted = strikes-recent client 0 a xs now t (omega arith) in
      locked-login (after ext a xs) client password now token
        (recent-locked (after ext a xs).limiter client now (omega (arith, counted, h)))
