-- ===== src/Fleet/Once/Kept.antt =====
-- The other calls, and all of them, with a job id that no job waits with.
use riscv_exam_computer.Base.{
  ℕ, ◌+◌, ◌<◌, ◌≡◌, sym, ap, ◌∙◌, Option, some, List, arith, length, take, Str, ltb, Bool-cases,
  Option-cases, Result-cases, inl, inr, str_eq, str_eq_iff, trim, any, is_control,
}
use riscv_exam_computer.Base.Words.{u64_mod}
use riscv_exam_computer.Base.OrderedMap.{get}
use riscv_exam_computer.Seb.{ExamSpec}
use riscv_exam_computer.SebFile.Values.{Ext}
use riscv_exam_computer.Fleet.Model.{max_label, Fleet, Board}
use riscv_exam_computer.Fleet.Log.{log}
use riscv_exam_computer.Fleet.Beat.Delivery.{job_of}
use riscv_exam_computer.Fleet.Admin.{rename, rename_board, forget, label_of}
use riscv_exam_computer.Fleet.Admin.Labels.{get-forget, get-rename_board}
use riscv_exam_computer.Fleet.Invariant.Calls.{
  Call, beats, ticks, enqueues, renames, forgets, creates, deletes, step,
}
use riscv_exam_computer.Fleet.Exams.{create_exam, new_exam, delete_exam, take_exam}
use riscv_exam_computer.Fleet.Once.Past.{IsSpent, IsPast}
use riscv_exam_computer.Fleet.Once.Beats.{heartbeat-IsPast, tick-IsPast}
use riscv_exam_computer.Fleet.Once.Requests.{enqueue-IsPast}

rename_board-next_job_id :
    (f : Fleet) (k : Str) (new : Option Str) (wall_ms : ℕ) (b : Board)
    → (rename_board f k new wall_ms b).next_job_id ≡ f.next_job_id
unfolding rename_board log
rename_board-next_job_id f k new wall_ms b = ground arith

-- A rename changes no job.
rename_board-IsPast :
    (j : ℕ) (host : Str) (f : Fleet) (k : Str) (new : Option Str) (wall_ms : ℕ) (b : Board)
    → get k f.boards ≡ some b
    → IsPast j host f
    → IsPast j host (rename_board f k new wall_ms b)
unfolding rename_board log
rename_board-IsPast j host f k new wall_ms b h p =
    let e = get-rename_board f k host new wall_ms b h in
    record {
      spent = elim (Bool-cases (str_eq k host)) [
        | inl t ↦
            let same : get host f.boards ≡ some b =
              ap (λ i. get i f.boards) (sym ((str_eq_iff k host).0 t)) ∙ h in
            let before : IsSpent j (job_of b.live) = rw same at p.spent in rw (e, t) before
        | inr t ↦ rw (e, t) p.spent
      ];
      below = rw (rename_board-next_job_id f k new wall_ms b) p.below;
    }

rename-IsPast :
    (j : ℕ) (host : Str) (f : Fleet) (k label : Str) (wall_ms : ℕ)
    → IsPast j host f
    → IsPast j host (rename f k label wall_ms).0
unfolding rename
rename-IsPast j host f k label wall_ms p = elim (Bool-cases (ltb max_label (length (trim label)))) [
  | inl e ↦ rw (e, rename) p
  | inr short ↦ elim (Bool-cases (any is_control (trim label))) [
    | inl e ↦ rw (short, e, rename) p
    | inr plain ↦ elim (Option-cases (get k f.boards)) [
      | inl e ↦ rw (short, plain, e, rename) p
      | inr (b, e) ↦
          rw (short, plain, e, rename)
            (rename_board-IsPast j host f k (label_of k (trim label)) wall_ms b e p)
    ]
  ]
]

forget-IsPast :
    (j : ℕ) (host : Str) (f : Fleet) (k : Str) (wall_ms : ℕ)
    → IsPast j host f
    → IsPast j host (forget f k wall_ms).0
unfolding forget log
forget-IsPast j host f k wall_ms p =
    let e = get-forget f k host wall_ms in
    record {
      spent = elim (Bool-cases (str_eq k host)) [
        | inl t ↦ rw (e, t) tt
        | inr t ↦ rw (e, t) p.spent
      ];
      below = ground (arith, p.below);
    }

create_exam-IsPast :
    (j : ℕ) (host : Str) (ext : Ext) (f : Fleet) (id name : Str) (spec : ExamSpec) (salt : List ℕ)
    (wall_ms : ℕ)
    → IsPast j host f
    → IsPast j host (create_exam ext f id name spec salt wall_ms).0
unfolding create_exam log
create_exam-IsPast j host ext f id name spec salt wall_ms p =
    elim (Result-cases (new_exam ext f.public_url f.exams id name spec salt wall_ms)) [
      | inl (e, h) ↦ rw (h, create_exam) (record { spent = p.spent; below = p.below })
      | inr (e, h) ↦ rw (h, create_exam) p
    ]

delete_exam-IsPast :
    (j : ℕ) (host : Str) (f : Fleet) (id : Str) (wall_ms : ℕ)
    → IsPast j host f
    → IsPast j host (delete_exam f id wall_ms).0
unfolding delete_exam log
delete_exam-IsPast j host f id wall_ms p = elim (Option-cases (take_exam f.exams id)) [
  | inl h ↦ rw (h, delete_exam) p
  | inr (r, h) ↦ rw (h, delete_exam) (record { spent = p.spent; below = p.below })
]

-- The counter of jobs does not wrap in this call.
abbrev pub HasIds : Fleet → Call → Type 0
HasIds f (enqueues hosts kind exam_id now wall_ms) =
    f.next_job_id + length (take f.max_boards hosts) < u64_mod
HasIds f _ = Unit

pub step-IsPast :
    (j : ℕ) (host : Str) (ext : Ext) (f : Fleet) (c : Call)
    → HasIds f c
    → IsPast j host f
    → IsPast j host (step ext f c)
unfolding step
step-IsPast j host ext f (beats hb now wall_ms) room p = heartbeat-IsPast j host f hb now wall_ms p
step-IsPast j host ext f (ticks now wall_ms) room p = tick-IsPast j host f now wall_ms p
step-IsPast j host ext f (enqueues hosts kind exam_id now wall_ms) room p =
    enqueue-IsPast j host ext f hosts kind exam_id now wall_ms room p
step-IsPast j host ext f (renames k label wall_ms) room p = rename-IsPast j host f k label wall_ms p
step-IsPast j host ext f (forgets k wall_ms) room p = forget-IsPast j host f k wall_ms p
step-IsPast j host ext f (creates id name spec salt wall_ms) room p =
    create_exam-IsPast j host ext f id name spec salt wall_ms p
step-IsPast j host ext f (deletes id wall_ms) room p = delete_exam-IsPast j host f id wall_ms p
