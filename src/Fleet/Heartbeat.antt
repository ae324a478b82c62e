-- ===== src/Fleet/Heartbeat.antt =====
-- `Fleet::heartbeat`.
pub mod Delivery
pub mod Admission
use riscv_exam_computer.Base.{
  ℕ, Bool, true, false, not, ◌&&◌, Option, none, some, List, [], ◌∷◌, ◌++◌, leb, if◌then◌else◌,
  length, opt_bind, Result, ok, err, Str, txt,
}
use riscv_exam_computer.Base.Decimal.{decimal}
use riscv_exam_computer.Base.OrderedMap.{get, contains_key, insert, update}
use riscv_exam_computer.Proto.{Heartbeat, HeartbeatReply}
use riscv_exam_computer.Fleet.Model.{
  Fleet, Board, Live, Instant, HeartbeatError, invalid_host, too_many_boards, valid_host, Actor,
  Level,
}
use riscv_exam_computer.Fleet.Log.{log, log_all}
use riscv_exam_computer.Fleet.Beat.{beat}

unfoldable pub warn_cap : Fleet → Str → ℕ → Fleet
warn_cap f host wall_ms =
    if f.cap_warned
    then f
    else log (record f { cap_warned = true }) wall_ms Actor.system Level.warn (some host)
        (txt "Board limit of "
          ++ decimal f.max_boards
          ++ txt " reached; ignoring new boards. Forget unused boards or raise EXAM_MAX_BOARDS.")

abbrev pub new_board : Str → ℕ → Board
new_board host wall_ms = record {
  rec = record { host = host; label = none; first_seen_ms = wall_ms; last_seen_ms = wall_ms };
  live = none;
}

unfoldable pub add_board : Fleet → Str → ℕ → Fleet
add_board f host wall_ms =
    log (record f { boards = insert host (new_board host wall_ms) f.boards }) wall_ms Actor.board
      Level.info (some host) (txt "New board checked in")

-- The first part of `heartbeat`: whether the board may report, and the fleet with it.
unfoldable pub admit : Fleet → Str → ℕ → Fleet × Bool
unfolding warn_cap add_board
admit f host wall_ms =
    if contains_key host f.boards
    then (f, true)
    else if leb f.max_boards (length f.boards)
    then (warn_cap f host wall_ms, false)
    else (add_board f host wall_ms, true)

abbrev pub live_of : Option Board → Option Live
live_of b = opt_bind b (λ b. b.live)

abbrev pub seen_board : ℕ → Live → Board → Board
seen_board wall_ms live b = record b {
  rec = record b.rec { last_seen_ms = wall_ms };
  live = some live;
}

-- The rest, on a fleet that has the board.
unfoldable pub report : Fleet → Heartbeat → Instant → ℕ → Fleet × HeartbeatReply
report f hb now wall_ms =
    let (live, reply, events) = beat f.exams (live_of (get hb.host f.boards)) hb now in
    let g = record f { boards = update hb.host (seen_board wall_ms live) f.boards } in
    (log_all g wall_ms Actor.board hb.host events, reply)

unfoldable pub heartbeat :
    Fleet → Heartbeat → Instant → ℕ → Fleet × Result HeartbeatError HeartbeatReply
unfolding admit report
heartbeat f hb now wall_ms =
    if not (valid_host hb.host)
    then (f, err invalid_host)
    else (let (g, admitted) = admit f hb.host wall_ms in
        if admitted
        then (let (h, reply) = report g hb now wall_ms in (h, ok reply))
        else (g, err too_many_boards))
