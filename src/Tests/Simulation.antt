-- ===== src/Tests/Simulation.antt =====
-- A simulated board.
use riscv_exam_computer.Base.{
  ℕ, ◌+◌, ◌-◌, ◌*◌, ◌/◌, ◌≡◌, ◌⊎◌, refl, arith, false, ◌||◌, null, unwrap_or, true, not, ◌&&◌, none,
  some, [], ◌∷◌, Result, err, is_ok, opt_map, ltb, if◌then◌else◌, Str, txt,
}
use riscv_exam_computer.Proto.{Heartbeat, HeartbeatReply}
use riscv_exam_computer.Fleet.Beat
use riscv_exam_computer.Fleet.Beat.{beat}
use riscv_exam_computer.Fleet.Beat.Delivery.{pick_up}
use riscv_exam_computer.Sim.Floats.{Floats}
use riscv_exam_computer.Sim.Rng
use riscv_exam_computer.Sim.Rng.Seeds.{IsSeeded, drawn, drawn-IsSeeded}
use riscv_exam_computer.Sim.Options.{Opts}
use riscv_exam_computer.Sim.Board.{Seb, new, step, heartbeat}
use riscv_exam_computer.Sim.Round.{Round, Runner, round, rounds}
use riscv_exam_computer.Sim.Round.Pending.{silent_in, round-job_result}
use riscv_exam_computer.Sim.Delivery.{due_start-ends_job}
use riscv_exam_computer.Tests.Data.{waiting_live, waiting_job}

-- Floats as whole numbers.
abbrev whole : Floats
whole = record {
  lit = λ s. 0;
  add = λ a b. a + b;
  sub = λ a b. a - b;
  mul = λ a b. a * b;
  div = λ a b. a / b;
  lt = ltb;
  round = λ a. a;
  clamp = λ a lo hi. a;
  of_nat = λ n. n;
  to_u64 = λ a. a;
  narrow = λ a. a;
  div_f32 = λ a b. a / b;
  lit_f32 = λ s. 1;
  duration = λ a. a;
  parse = λ s. none;
}

abbrev opts : Opts
opts = record {
  server = txt "http://s";
  count = 1;
  prefix = txt "sim-";
  chaos = 0;
  legacy = 0;
  interval = 5;
  token = none;
}

-- A start of the job that waits in the fleet is under way until the instant 10, and fails then.
abbrev launching : Runner
launching = record {
  board = record (new whole 0 opts 1 0) { seb = Seb.starting 10 7 none true };
  failures = 0;
}

abbrev round_at : ℕ → Result Str (Result Str HeartbeatReply) → Round
round_at n answer = record {
  at_step = n;
  at_check = n;
  at_beat = n;
  at_handle = n;
  answer = answer;
}

abbrev unanswered : Round
unanswered = round_at 5 (err (txt "no route"))

abbrev due : Round
due = round_at 12 (err (txt "no route"))

-- The board is off the network until the instant 15, when its start has been due for some time.
abbrev cut_off : Runner
cut_off = record launching { board = record launching.board { silent_until = some 15 } }

abbrev again : Round
again = round_at 16 (err (txt "no route"))

abbrev waited : Runner
waited = rounds whole (txt "1") 0 (due ∷ []) (rounds whole (txt "1") 0 (unanswered ∷ []) cut_off)

abbrev sent : Heartbeat
sent =
    unwrap_or (round whole (txt "1") 0 again waited).1 (heartbeat whole (txt "1") 0 launching.board)

due_start-ends_job_example :
    ((beat [] (some waiting_live) sent 20).0.job ≡ (
      if true && not cut_off.board.legacy || Beat.is_running sent
      then none
      else some (pick_up 20 waiting_job)))
    × ((null (due ∷ []) ≡ false) ⊎ (Beat.is_running sent ≡ not true))
unfolding round rounds new Rng.new step
due_start-ends_job_example =
    due_start-ends_job whole (txt "1") 0 [] (some waiting_live) waiting_job 20 10 none true cut_off
      (unanswered ∷ []) (due ∷ []) again sent refl refl refl ((omega arith, tt), tt)
      (omega arith, refl, tt) (omega arith) refl

round-job_result_example :
    ((round whole (txt "1") 0 due launching).0.board.job_result ≡ (
      if not (silent_in whole 0 due launching.board) && is_ok due.answer
      then none
      else (step whole 0 due.at_step launching.board).job_result))
    × (opt_map (λ hb. hb.job_result) (round whole (txt "1") 0 due launching).1 ≡ (
        if silent_in whole 0 due launching.board
        then none
        else some (
            if (step whole 0 due.at_step launching.board).legacy
            then none
            else (step whole 0 due.at_step launching.board).job_result)))
round-job_result_example = round-job_result whole (txt "1") 0 due launching

drawn-IsSeeded_example : IsSeeded (drawn 100 (Rng.new 0))
drawn-IsSeeded_example = drawn-IsSeeded 0 100
