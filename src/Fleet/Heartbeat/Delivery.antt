-- ===== src/Fleet/Heartbeat/Delivery.antt =====
-- The effect of a heartbeat on the board that sends it, and on the others.
use riscv_exam_computer.Base.{
  ℕ, ◌≡◌, ◌≢◌, refl, ap, ◌∙◌, true, false, some, List, arith, is_some, Bool-cases, Option-cases,
  inl, inr, ok, Str, str_eq, str_eq_iff, str_eq_refl,
}
use riscv_exam_computer.Base.OrderedMap.{get, contains_key, update}
use riscv_exam_computer.Base.OrderedMap.Laws.{get-insert, get-update}
use riscv_exam_computer.Proto.{Heartbeat, HeartbeatReply}
use riscv_exam_computer.Fleet.Model.{Fleet, Board, Live, Instant, valid_host, Actor}
use riscv_exam_computer.Fleet.Log.{log}
use riscv_exam_computer.Fleet.Log.Frame.{log_all-SameBut}
use riscv_exam_computer.Fleet.Beat.{beat}
use riscv_exam_computer.Fleet.Heartbeat.{
  admit, warn_cap, add_board, new_board, live_of, seen_board, report, heartbeat,
}

ne-false : (i j : Str) → i ≢ j → str_eq i j ≡ false
ne-false i j h = ground (arith, str_eq_iff i j)

-- An admitted board is there, with the live part that it had.
admit_lem :
    (f : Fleet) (host : Str) (wall_ms : ℕ)
    → (admit f host wall_ms).1 ≡ true
    → (is_some (get host (admit f host wall_ms).0.boards) ≡ true)
      × (live_of (get host (admit f host wall_ms).0.boards) ≡ live_of (get host f.boards))
      × ((admit f host wall_ms).0.exams ≡ f.exams)
unfolding admit add_board contains_key log
admit_lem f host wall_ms h =
    ground (arith, get-insert host host (new_board host wall_ms) f.boards, str_eq_refl host)

pub admit_others :
    (f : Fleet) (host : Str) (wall_ms : ℕ) (j : Str)
    → j ≢ host
    → get j (admit f host wall_ms).0.boards ≡ get j f.boards
unfolding admit add_board warn_cap contains_key log
admit_others f host wall_ms j h =
    ground (arith, get-insert host j (new_board host wall_ms) f.boards, str_eq_iff host j)

pub report-boards :
    (f : Fleet) (hb : Heartbeat) (now : Instant) (wall_ms : ℕ)
    → (report f hb now wall_ms).0.boards
      ≡ update hb.host
          (seen_board wall_ms (beat f.exams (live_of (get hb.host f.boards)) hb now).0)
          f.boards
unfolding report
report-boards f hb now wall_ms = (log_all-SameBut _ wall_ms Actor.board hb.host _).boards

-- The reply of a heartbeat that is answered, and what it leaves of its board.
pub record IsAnswered (f g : Fleet) (hb : Heartbeat) (now : Instant) (r : HeartbeatReply)
    : Type 0 where
  pub live :
      live_of (get hb.host g.boards) ≡ some (beat f.exams (live_of (get hb.host f.boards)) hb now).0
  pub reply : r ≡ (beat f.exams (live_of (get hb.host f.boards)) hb now).1

live-update :
    (k : Str) (wall_ms : ℕ) (live : Live) (m : List (Str × Board))
    → is_some (get k m) ≡ true
    → live_of (get k (update k (seen_board wall_ms live) m)) ≡ some live
live-update k wall_ms live m there = elim (Option-cases (get k m)) [
  | inl e ↦ absurd (cc)
  | inr (b, e) ↦ rw (get-update, str_eq_refl, e) refl
]

report-IsAnswered :
    (f g : Fleet) (hb : Heartbeat) (now : Instant) (wall_ms : ℕ)
    → is_some (get hb.host g.boards) ≡ true
    → live_of (get hb.host g.boards) ≡ live_of (get hb.host f.boards)
    → g.exams ≡ f.exams
    → IsAnswered f (report g hb now wall_ms).0 hb now (report g hb now wall_ms).1
unfolding report
report-IsAnswered f g hb now wall_ms there same exams =
    let before = live_of (get hb.host g.boards) in
    let agree : beat g.exams before hb now ≡ beat f.exams (live_of (get hb.host f.boards)) hb now =
      cc in
    record {
      live =
          ap (λ m. live_of (get hb.host m)) (report-boards g hb now wall_ms)
          ∙ (live-update hb.host wall_ms (beat g.exams before hb now).0 g.boards there
              ∙ ap (λ t. some t.0) agree);
      reply = ap (λ t. t.1) agree;
    }

-- A heartbeat that is answered has the effect of `beat` on the board's live part, and replies so.
pub heartbeat-IsAnswered :
    (f g : Fleet) (hb : Heartbeat) (now : Instant) (wall_ms : ℕ) (r : HeartbeatReply)
    → heartbeat f hb now wall_ms ≡ (g, ok r)
    → IsAnswered f g hb now r
unfolding heartbeat
heartbeat-IsAnswered f g hb now wall_ms r e = elim (Bool-cases (valid_host hb.host)) [
  | inr bad ↦ absurd (ground arith)
  | inl fine ↦ elim (Bool-cases (admit f hb.host wall_ms).1) [
    | inr refused ↦ absurd (ground arith)
    | inl admitted ↦
        let a = admit_lem f hb.host wall_ms admitted in
        let h = admit f hb.host wall_ms in
        let same : (report h.0 hb now wall_ms).0 ≡ g = ground arith in
        let reply : (report h.0 hb now wall_ms).1 ≡ r = ground arith in
        rw (← same, ← reply) (report-IsAnswered f h.0 hb now wall_ms a.0 a.1 a.2)
  ]
]
