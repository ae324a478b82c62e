-- ===== src/Sim/Board.antt =====
-- `Board`: the simulated hardware and SEB session of one board. Printing is left out.
use riscv_exam_computer.Base.{
  ℕ, ◌+◌, ◌-◌, ◌*◌, ◌/◌, ◌%◌, Bool, true, false, Option, none, some, ltb, leb, if◌then◌else◌,
  unwrap_or, opt_map, ◌++◌, Str, txt,
}
use Prim.Native.Nat.{bit_xor}
use Prim.Native.String.{String}
use riscv_exam_computer.Base.Words.{ℤ, pos, u64_mod}
use riscv_exam_computer.Base.Decimal.{decimal, decimal_pad}
use riscv_exam_computer.Proto.{
  Heartbeat, HeartbeatReply, JobResult, start, stop, heartbeat_of, protocol_version,
  idle as idle_state, running as running_state,
}
use riscv_exam_computer.Fleet.Model.{Instant, as_secs}
use riscv_exam_computer.Sim.Floats.{F64, Floats}
use riscv_exam_computer.Sim.Rng.{range, chance}
use riscv_exam_computer.Sim.Rng
use riscv_exam_computer.Sim.Options.{Opts}

pub data Seb : Type 0 where
  idle : Seb
  starting : Instant → ℕ → Option Str → Bool → Seb
  running : Option Str → Seb
  stopping : Instant → ℕ → Seb

pub record Board : Type 0 where
  pub host : Str
  pub legacy : Bool
  pub rng : ℕ
  pub seb : Seb
  pub temp : F64
  pub load : F64 × F64 × F64
  pub avail_kb : F64
  pub boot : Instant
  pub uptime0 : ℕ
  pub ip : Str
  pub last_exit : Option ℤ
  pub job_result : Option JobResult
  pub silent_until : Option Instant

abbrev pub mem_total_kb : ℕ
mem_total_kb = 4012000

abbrev pub is_running : Seb → Bool
is_running Seb.idle = false
is_running (Seb.starting done job exam fail) = false
is_running (Seb.running exam) = true
is_running (Seb.stopping done job) = true

abbrev pub passed : ℕ → JobResult
passed job = record { id = job; ok = true; message = none }

unfoldable pub failed : ℕ → JobResult
unfolding txt
failed job = record {
  id = job;
  ok = false;
  message = some (txt "SEB exited with code 1 before the exam opened");
}

abbrev exam_of : Seb → Option Str
exam_of (Seb.running exam) = exam
exam_of _ = none

module _ (f : Floats) where
  open f use {
    lit, add, sub, mul, div, clamp, round, of_nat, to_u64, narrow, div_f32, lit_f32, duration,
  }

  abbrev num : String → F64
  num s = lit (txt s)

  -- `i` is the number of the board, from 0.
  unfoldable pub new : ℕ → Opts → ℕ → Instant → Board
  unfolding decimal decimal_pad
  new i o seed now =
      let rng = Rng.new (bit_xor seed ((i + 1) * 7919 % u64_mod)) in
      let (temp, rng1) = range f (num "41.0") (num "49.0") rng in
      let (up, rng2) = range f (num "300.0") (num "200000.0") rng1 in
      record {
        host = o.prefix ++ decimal_pad 2 (i + 1);
        legacy = ltb i o.legacy;
        rng = rng2;
        seb = Seb.idle;
        temp = temp;
        load = (num "0.2", num "0.2", num "0.2");
        avail_kb = num "3200000.0";
        boot = now;
        uptime0 = to_u64 up;
        ip = txt "10.20." ++ decimal (30 + i / 200) ++ txt "." ++ decimal (10 + i % 200);
        last_exit = none;
        job_result = none;
        silent_until = none;
      }

  -- The temperature, load and memory of one tick.
  unfoldable pub step_hardware : Board → Board
  unfolding range
  step_hardware b =
      let busy = is_running b.seb in
      let target = if busy then num "63.0" else num "46.0" in
      let (noise, rng1) = range f (num "-1.2") (num "1.2") b.rng in
      let temp = add b.temp (add (mul (sub target b.temp) (num "0.15")) noise) in
      let (l, rng2) =
        if busy
        then range f (num "1.6") (num "3.4") rng1
        else range f (num "0.05") (num "0.5") rng1 in
      let mem_target = if busy then num "1500000.0" else num "3150000.0" in
      let (drift, rng3) = range f (num "-40000.0") (num "40000.0") rng2 in
      record b {
        temp = clamp temp (num "32.0") (num "88.0");
        load = (
          l,
          add (mul b.load.1 (num "0.8")) (mul l (num "0.2")),
          add (mul b.load.2 (num "0.93")) (mul l (num "0.07")),
        );
        avail_kb = add b.avail_kb (add (mul (sub mem_target b.avail_kb) (num "0.3")) drift);
        rng = rng3;
      }

  abbrev pub crash : Bool × ℕ → Board → Board
  crash (true, rng) b = record b { seb = Seb.idle; last_exit = some (pos 139); rng = rng }
  crash (false, rng) b = record b { rng = rng }

  abbrev pub settle : ℕ → Option Str → Bool → Board → Board
  settle job exam true b = record b {
    seb = Seb.idle;
    last_exit = some (pos 1);
    job_result = some (failed job);
  }
  settle job exam false b = record b { seb = Seb.running exam; job_result = some (passed job) }

  -- What one tick does to the session, as it stands.
  unfoldable pub step_seb : F64 → Instant → Seb → Board → Board
  unfolding failed chance
  step_seb chaos now Seb.idle b = b
  step_seb chaos now (Seb.starting done job exam fail) b =
      if leb done now then settle job exam fail b else b
  step_seb chaos now (Seb.running exam) b = crash (chance f (div chaos (num "40.0")) b.rng) b
  step_seb chaos now (Seb.stopping done job) b =
      if leb done now
      then record b { seb = Seb.idle; last_exit = some (pos 0); job_result = some (passed job) }
      else b

  abbrev drop_off : Instant → Bool × ℕ → Board → Board
  drop_off now (false, rng) b = record b { rng = rng }
  drop_off now (true, rng) b =
      let (secs, rng1) = range f (num "20.0") (num "45.0") rng in
      record b { rng = rng1; silent_until = some (now + duration secs) }

  -- The board may drop off the network.
  unfoldable pub step_network : F64 → Instant → Board → Board
  unfolding chance range
  step_network chaos now b = elim b.silent_until [
    | some until ↦ b
    | none ↦ drop_off now (chance f (div chaos (num "60.0")) b.rng) b
  ]

  unfoldable pub step : F64 → Instant → Board → Board
  unfolding step_hardware step_seb step_network
  step chaos now b =
      let b1 = step_hardware b in step_network chaos now (step_seb chaos now b1.seb b1)

  unfoldable pub rounded : F64 → String → ℕ
  rounded x scale = div_f32 (narrow (round (mul x (num scale)))) (lit_f32 (txt scale))

  -- `version` is the package's.
  unfoldable pub heartbeat : Str → Instant → Board → Heartbeat
  unfolding rounded
  heartbeat version now b =
      let st = if is_running b.seb then running_state else idle_state in
      let full = record (heartbeat_of b.host st) {
        protocol = some protocol_version;
        agent_version = some (version ++ txt "-sim");
        seb_version = some (txt "sim-3.9.0");
        image_hash = some (txt "sim-9f2c4e1a");
        ip = some b.ip;
        cpu_temp_c = some (rounded b.temp "10.0");
        load = some (rounded b.load.0 "100.0", rounded b.load.1 "100.0", rounded b.load.2 "100.0");
        mem = some (record {
          total_kb = mem_total_kb;
          available_kb = to_u64 (clamp b.avail_kb (num "100000.0") (of_nat mem_total_kb));
        });
        uptime_s = some (b.uptime0 + as_secs (now - b.boot));
        last_exit_code = b.last_exit;
        job_result = b.job_result;
        exam_id = exam_of b.seb;
      } in
      if b.legacy then heartbeat_of b.host st else full

  abbrev pub begin : HeartbeatReply → F64 → Instant → Board → Board
  begin reply chaos now b =
      let (delay, rng1) = range f (num "3.0") (num "8.0") b.rng in
      let (fail, rng2) = chance f chaos rng1 in
      record b {
        rng = rng2;
        seb =
            Seb.starting (now + duration delay) (unwrap_or reply.job_id 0)
              (opt_map (λ e. e.id) reply.exam) fail;
      }

  abbrev pub finish : HeartbeatReply → Instant → Board → Board
  finish reply now b =
      let (delay, rng1) = range f (num "1.0") (num "3.0") b.rng in
      record b { rng = rng1; seb = Seb.stopping (now + duration delay) (unwrap_or reply.job_id 0) }

  -- A start is taken up only by an idle board.
  abbrev start_when_idle : Seb → HeartbeatReply → F64 → Instant → Board → Board
  start_when_idle Seb.idle reply chaos now b = begin reply chaos now b
  start_when_idle (Seb.starting done job exam fail) reply chaos now b = b
  start_when_idle (Seb.running exam) reply chaos now b = b
  start_when_idle (Seb.stopping done job) reply chaos now b = b

  unfoldable pub handle : HeartbeatReply → F64 → Instant → Board → Board
  unfolding range chance
  handle reply chaos now b = elim reply.job [
    | none ↦ b
    | some start ↦ start_when_idle b.seb reply chaos now b
    | some stop ↦ finish reply now b
  ]
