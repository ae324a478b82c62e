-- ===== src/Fleet/Heartbeat/Admission.antt =====
-- Which heartbeats are answered, and what a heartbeat leaves alone.
use riscv_exam_computer.Base.{
  ℕ, ◌≤◌, ◌<◌, max, ◌≡◌, ◌≢◌, ◌↔◌, ◌⊎◌, ap, ◌∙◌, true, arith, is_some, Str, str_eq_iff, length,
  is_ok,
}
use riscv_exam_computer.Base.OrderedMap.{get, contains_key}
use riscv_exam_computer.Base.OrderedMap.Laws.{get-update, length-update, length-insert-le}
use riscv_exam_computer.Proto.{Heartbeat}
use riscv_exam_computer.Fleet.Model.{Fleet, valid_host}
use riscv_exam_computer.Fleet.Log.{log}
use riscv_exam_computer.Fleet.Beat.{beat}
use riscv_exam_computer.Fleet.Heartbeat.{
  admit, warn_cap, add_board, new_board, live_of, seen_board, report, heartbeat,
}
use riscv_exam_computer.Fleet.Heartbeat.Delivery.{admit_others, report-boards}

-- A heartbeat is answered exactly if its host name is valid and the board is known or there is room.
pub heartbeat_answered_iff :
    (f : Fleet) (hb : Heartbeat) (now wall_ms : ℕ)
    → (is_ok (heartbeat f hb now wall_ms).1 ≡ true) ↔ (
        (valid_host hb.host ≡ true)
        × ((is_some (get hb.host f.boards) ≡ true) ⊎ (length f.boards < f.max_boards)))
unfolding heartbeat admit contains_key
heartbeat_answered_iff f hb now wall_ms = ground arith

report_others :
    (f : Fleet) (hb : Heartbeat) (now wall_ms : ℕ) (j : Str)
    → j ≢ hb.host
    → get j (report f hb now wall_ms).0.boards ≡ get j f.boards
report_others f hb now wall_ms j h =
    let live = (beat f.exams (live_of (get hb.host f.boards)) hb now).0 in
    ap (get j) (report-boards f hb now wall_ms)
    ∙ ground (arith, get-update hb.host j (seen_board wall_ms live) f.boards, str_eq_iff hb.host j)

-- Answered or not, a heartbeat changes no other board.
pub heartbeat_others :
    (f : Fleet) (hb : Heartbeat) (now wall_ms : ℕ) (j : Str)
    → j ≢ hb.host
    → get j (heartbeat f hb now wall_ms).0.boards ≡ get j f.boards
unfolding heartbeat
heartbeat_others f hb now wall_ms j h = ground (
  arith,
  admit_others f hb.host wall_ms j h,
  report_others (admit f hb.host wall_ms).0 hb now wall_ms j h,
)

report-length :
    (f : Fleet) (hb : Heartbeat) (now wall_ms : ℕ)
    → length (report f hb now wall_ms).0.boards ≡ length f.boards
report-length f hb now wall_ms =
    ap length (report-boards f hb now wall_ms) ∙ length-update hb.host _ f.boards

admit-length :
    (f : Fleet) (host : Str) (wall_ms : ℕ)
    → length (admit f host wall_ms).0.boards ≤ max f.max_boards (length f.boards)
unfolding admit add_board warn_cap log
admit-length f host wall_ms =
    ground (arith, length-insert-le host (new_board host wall_ms) f.boards)

-- A heartbeat adds no board beyond the limit.
heartbeat-length :
    (f : Fleet) (hb : Heartbeat) (now wall_ms : ℕ)
    → length (heartbeat f hb now wall_ms).0.boards ≤ max f.max_boards (length f.boards)
unfolding heartbeat
heartbeat-length f hb now wall_ms = ground (
  arith,
  admit-length f hb.host wall_ms,
  report-length (admit f hb.host wall_ms).0 hb now wall_ms,
)
