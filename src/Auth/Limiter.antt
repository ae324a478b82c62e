-- ===== src/Auth/Limiter.antt =====
-- `Limiter`: failed logins, per client and overall, within their windows.
pub mod Strikes
use riscv_exam_computer.Base.{
  ℕ, ◌-◌, ◌*◌, Bool, true, false, not, ◌||◌, Option, none, some, List, [], ◌∷◌, ◌++◌, ltb, leb,
  if◌then◌else◌, length, null, Str, str_eq,
}
use riscv_exam_computer.Fleet.Model.{Instant, from_secs}
use riscv_exam_computer.Auth.Digests.{Limiter}

abbrev pub per_client_failures : ℕ
per_client_failures = 5

abbrev pub global_failures : ℕ
global_failures = 30

abbrev pub window : ℕ
window = from_secs (5 * 60)

abbrev pub global_window : ℕ
global_window = from_secs 60

-- `while q.front().is_some_and(|t| now.duration_since(*t) > span) { q.pop_front(); }`.
unfoldable pub pop_old : ℕ → Instant → List Instant → List Instant
pop_old span now [] = []
pop_old span now (t ∷ q) = if ltb span (now - t) then pop_old span now q else t ∷ q

unfoldable pub prune_clients : Instant → List (Str × List Instant) → List (Str × List Instant)
unfolding pop_old
prune_clients now [] = []
prune_clients now ((c, q) ∷ m) =
    let kept = pop_old window now q in
    let rest = prune_clients now m in if null kept then rest else (c, kept) ∷ rest

unfoldable pub prune : Instant → Limiter → Limiter
unfolding prune_clients
prune now lim = record {
  per_client = prune_clients now lim.per_client;
  global = pop_old global_window now lim.global;
}

-- `per_client.get(client)`, with the empty queue for a missing entry.
unfoldable pub failures : Str → List (Str × List Instant) → List Instant
unfolding str_eq
failures client [] = []
failures client ((c, q) ∷ m) = if str_eq c client then q else failures client m

-- `entry(client).or_default().push_back(now)`.
unfoldable pub add_failure : Str → Instant → List (Str × List Instant) → List (Str × List Instant)
unfolding str_eq
add_failure client now [] = (client, now ∷ []) ∷ []
add_failure client now ((c, q) ∷ m) =
    if str_eq c client then (c, q ++ now ∷ []) ∷ m else (c, q) ∷ add_failure client now m

unfoldable pub clear_client : Str → List (Str × List Instant) → List (Str × List Instant)
unfolding str_eq
clear_client client [] = []
clear_client client ((c, q) ∷ m) =
    if str_eq c client then clear_client client m else (c, q) ∷ clear_client client m

unfoldable pub locked : Str → Limiter → Bool
unfolding failures
locked client lim =
    leb per_client_failures (length (failures client lim.per_client))
    || leb global_failures (length lim.global)

unfoldable pub fail : Str → Instant → Limiter → Limiter
unfolding add_failure
fail client now lim = record {
  per_client = add_failure client now lim.per_client;
  global = lim.global ++ now ∷ [];
}
