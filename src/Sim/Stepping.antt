-- ===== src/Sim/Stepping.antt =====
-- What a step of a simulated board does to a start that is under way, and what its heartbeat tells.
use riscv_exam_computer.Base.{
  ℕ, ◌≤◌, ◌<◌, ◌≡◌, refl, ap, ◌∙◌, Bool, true, false, Option, none, some, arith, if◌then◌else◌, Str,
  str_eq, txt, Bool-cases, inl, inr,
}
use riscv_exam_computer.Proto.{idle as idle_state, running as running_state}
use riscv_exam_computer.Fleet.Model.{Instant}
use riscv_exam_computer.Fleet.Beat.{beat, completes}
use riscv_exam_computer.Fleet.Beat
use riscv_exam_computer.Sim.Floats.{F64, Floats}
use riscv_exam_computer.Sim.Board.{
  Board, Seb, is_running, passed, failed, step_hardware, step_seb, step_network, step, heartbeat,
  crash,
}
use riscv_exam_computer.Sim.Rng.{chance}

-- No start and no stop is under way.
abbrev pub is_over : Seb → Bool
is_over Seb.idle = true
is_over (Seb.running exam) = true
is_over (Seb.starting done job exam fail) = false
is_over (Seb.stopping done job) = false

module _ (f : Floats) where
  network-keeps :
      (chaos : F64) (now : Instant) (b : Board)
      → ((step_network f chaos now b).seb ≡ b.seb)
        × ((step_network f chaos now b).job_result ≡ b.job_result)
        × ((step_network f chaos now b).legacy ≡ b.legacy)
  unfolding step_network
  network-keeps chaos now b = ground arith

  hardware-keeps :
      (b : Board)
      → ((step_hardware f b).seb ≡ b.seb)
        × ((step_hardware f b).job_result ≡ b.job_result)
        × ((step_hardware f b).legacy ≡ b.legacy)
  unfolding step_hardware
  hardware-keeps b = (refl, refl, refl)

  -- The session before the step decides what becomes of it.
  step-keeps :
      (chaos : F64) (now : Instant) (seb : Seb) (b : Board)
      → b.seb ≡ seb
      → ((step f chaos now b).seb ≡ (step_seb f chaos now seb (step_hardware f b)).seb)
        × ((step f chaos now b).job_result
            ≡ (step_seb f chaos now seb (step_hardware f b)).job_result)
        × ((step f chaos now b).legacy ≡ (step_seb f chaos now seb (step_hardware f b)).legacy)
  unfolding step
  step-keeps chaos now seb b h =
      let e = (hardware-keeps b).0 ∙ h in
      rw (← e)
        (network-keeps chaos now (step_seb f chaos now (step_hardware f b).seb (step_hardware f b)))

  -- A start that is due is settled by the step.
  pub step-settles :
      (chaos : F64) (now done : Instant) (id : ℕ) (exam : Option Str) (fail : Bool) (b : Board)
      → b.seb ≡ Seb.starting done id exam fail
      → done ≤ now
      → ((step f chaos now b).seb ≡ (if fail then Seb.idle else Seb.running exam))
        × ((step f chaos now b).job_result ≡ some (if fail then failed id else passed id))
        × ((step f chaos now b).legacy ≡ b.legacy)
  unfolding step_seb
  step-settles chaos now done id exam fail b h due =
      let k = step-keeps chaos now (Seb.starting done id exam fail) b h in
      let w = hardware-keeps b in ground arith

  crash-over :
      (t : Bool × ℕ) (b : Board)
      → is_over b.seb ≡ true
      → (is_over (crash f t b).seb ≡ true)
        × ((crash f t b).job_result ≡ b.job_result)
        × ((crash f t b).legacy ≡ b.legacy)
  crash-over (true, rng) b over = (refl, refl, refl)
  crash-over (false, rng) b over = (over, refl, refl)

  -- A session that is over or up stays so, or crashes; the result that is pending stays.
  step-over_as :
      (chaos : F64) (now : Instant) (seb : Seb) (b : Board)
      → b.seb ≡ seb
      → is_over seb ≡ true
      → (is_over (step f chaos now b).seb ≡ true)
        × ((step f chaos now b).job_result ≡ b.job_result)
        × ((step f chaos now b).legacy ≡ b.legacy)
  unfolding step_seb
  step-over_as chaos now Seb.idle b h over =
      let k = step-keeps chaos now Seb.idle b h in
      let (same, result, old) = hardware-keeps b in
      (ap is_over (k.0 ∙ same ∙ h), k.1 ∙ result, k.2 ∙ old)
  step-over_as chaos now (Seb.running exam) b h over =
      let k = step-keeps chaos now (Seb.running exam) b h in
      let (same, result, old) = hardware-keeps b in
      let up : is_over (step_hardware f b).seb ≡ true = ap is_over (same ∙ h) in
      let c =
        crash-over (chance f (f.div chaos (f.lit (txt "40.0"))) (step_hardware f b).rng)
          (step_hardware f b) up in
      (ap is_over k.0 ∙ c.0, k.1 ∙ c.1 ∙ result, k.2 ∙ c.2 ∙ old)
  step-over_as chaos now (Seb.starting done job exam fail) b h over = absurd (cc)
  step-over_as chaos now (Seb.stopping done job) b h over = absurd (cc)

  pub step-over :
      (chaos : F64) (now : Instant) (b : Board)
      → is_over b.seb ≡ true
      → (is_over (step f chaos now b).seb ≡ true)
        × ((step f chaos now b).job_result ≡ b.job_result)
        × ((step f chaos now b).legacy ≡ b.legacy)
  step-over chaos now b over = step-over_as chaos now b.seb b refl over

  -- Before it is due, nothing happens to it.
  pub step-waits :
      (chaos : F64) (now done : Instant) (id : ℕ) (exam : Option Str) (fail : Bool) (b : Board)
      → b.seb ≡ Seb.starting done id exam fail
      → now < done
      → ((step f chaos now b).seb ≡ Seb.starting done id exam fail)
        × ((step f chaos now b).legacy ≡ b.legacy)
  unfolding step_seb
  step-waits chaos now done id exam fail b h early =
      let k = step-keeps chaos now (Seb.starting done id exam fail) b h in
      let w = hardware-keeps b in ground arith

  state_runs : (up : Bool) → str_eq (if up then running_state else idle_state) running_state ≡ up
  unfolding str_eq idle_state running_state txt
  state_runs true = refl
  state_runs false = refl

  pub heartbeat-state :
      (version : Str) (now : Instant) (b : Board)
      → ((heartbeat f version now b).state
          ≡ (if is_running b.seb then running_state else idle_state))
        × ((heartbeat f version now b).job_result ≡ (if b.legacy then none else b.job_result))
  unfolding heartbeat
  heartbeat-state version now b = elim (Bool-cases b.legacy) [
    | inl e ↦ rw e (refl, refl)
    | inr e ↦ rw e (refl, refl)
  ]

  pub heartbeat-is_running :
      (version : Str) (now : Instant) (b : Board)
      → Beat.is_running (heartbeat f version now b) ≡ is_running b.seb
  unfolding Beat.is_running
  heartbeat-is_running version now b =
      ap (λ s. str_eq s running_state) (heartbeat-state version now b).0
      ∙ state_runs (is_running b.seb)
