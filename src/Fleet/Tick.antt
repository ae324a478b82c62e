-- ===== src/Fleet/Tick.antt =====
-- `Fleet::tick`: stale jobs expire, and boards are noticed going offline.
pub mod Expiry
use riscv_exam_computer.Base.{
  ℕ, ◌-◌, Bool, true, false, not, ◌&&◌, ◌||◌, Option, none, some, List, [], ◌∷◌, ◌++◌, ltb,
  if◌then◌else◌, map, Str, txt, starts_with,
}
use riscv_exam_computer.Base.Decimal.{decimal}
use riscv_exam_computer.Proto.{JobKind, start, stop, as_str}
use riscv_exam_computer.Fleet.Model.{
  Fleet, Board, Live, Job, Instant, Actor, Level, info, warn, offline_after, pickup_ttl,
  start_timeout, stop_timeout, as_secs,
}
use riscv_exam_computer.Fleet.Log.{log}
use riscv_exam_computer.Fleet.Beat.{cap}

unfoldable pub note_offline : Instant → Live → Live × List (Level × Str)
note_offline now live =
    if ltb offline_after (now - live.last_seen) && not live.offline_noted
    then (
      record live { offline_noted = true },
      (Level.warn, txt "Went offline (no heartbeat for 15 s)") ∷ [],
    )
    else (live, [])

abbrev start_message : Str
start_message =
    txt "Start timed out: SEB not running "
    ++ decimal (as_secs start_timeout)
    ++ txt " s after pickup"

abbrev stop_message : Str
stop_message =
    txt "Stop timed out: SEB still running "
    ++ decimal (as_secs stop_timeout)
    ++ txt " s after pickup"

unfoldable pub time_out : Str → Live → Live × List (Level × Str)
time_out msg live = (record live { error = some msg; job = none }, (Level.error, msg) ∷ [])

unfoldable pub expire_picked : JobKind → Instant → Instant → Live → Live × List (Level × Str)
unfolding time_out
expire_picked start t now live =
    if ltb start_timeout (now - t) then time_out start_message live else (live, [])
expire_picked stop t now live =
    if ltb stop_timeout (now - t) then time_out stop_message live else (live, [])

unfoldable pub expire_job : Option Job → Instant → Live → Live × List (Level × Str)
unfolding expire_picked
expire_job none now live = (live, [])
expire_job (some job) now live = elim job.picked_up_at [
  | none ↦
      if ltb pickup_ttl (now - job.queued_at)
      then (
        record live { job = none },
        (
          Level.warn,
          cap (as_str job.kind)
              ++ txt " expired: board did not pick it up within "
              ++ decimal (as_secs pickup_ttl)
              ++ txt " s",
        )
            ∷ [],
      )
      else (live, [])
  | some t ↦ expire_picked job.kind t now live
]

unfoldable pub tick_live : Instant → Live → Live × List (Level × Str)
unfolding note_offline expire_job
tick_live now live =
    let (noted, offline) = note_offline now live in
    let (after, expired) = expire_job noted.job now noted in (after, offline ++ expired)

abbrev with_live : Board → Live × List (Level × Str) → Board × List (Level × Str)
with_live b (live, events) = (record b { live = some live }, events)

unfoldable pub tick_board : Instant → Board → Board × List (Level × Str)
unfolding tick_live
tick_board now b = elim b.live [ none ↦ (b, []) | some live ↦ with_live b (tick_live now live) ]

abbrev pub tag : Str → List (Level × Str) → List (Str × Level × Str)
tag host [] = []
tag host ((level, text) ∷ evs) = (host, level, text) ∷ tag host evs

-- The loop over the boards, in key order.
unfoldable pub tick_boards :
    Instant → List (Str × Board) → List (Str × Board) × List (Str × Level × Str)
unfolding tick_board
tick_boards now [] = ([], [])
tick_boards now ((host, b) ∷ m) =
    let (b', events) = tick_board now b in
    let (m', rest) = tick_boards now m in ((host, b') ∷ m', tag host events ++ rest)

abbrev is_warn : Level → Bool
is_warn warn = true
is_warn _ = false

unfoldable pub tick_actor : Level → Str → Actor
unfolding starts_with
tick_actor level text =
    if is_warn level && starts_with text (txt "Went offline") then Actor.board else Actor.system

unfoldable pub log_ticks : Fleet → ℕ → List (Str × Level × Str) → Fleet
unfolding log tick_actor
log_ticks f wall_ms [] = f
log_ticks f wall_ms ((host, level, text) ∷ evs) =
    log_ticks (log f wall_ms (tick_actor level text) level (some host) text) wall_ms evs

unfoldable pub tick : Fleet → Instant → ℕ → Fleet
unfolding tick_boards log_ticks
tick f now wall_ms =
    let (boards, events) = tick_boards now f.boards in
    log_ticks (record f { boards = boards }) wall_ms events
