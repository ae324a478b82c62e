-- ===== src/Fleet/Invariant/Requests.antt =====
-- Well-formedness of a fleet under the requests of an instructor.
use riscv_exam_computer.Base.{
  ℕ, suc, ◌≤◌, ◌≡◌, refl, ap, ◌∙◌, subst, false, not, ◌||◌, Option, some, List, [], ◌∷◌, ◌++◌,
  arith, All, All-append, length, length-append, null, Option-cases, Bool-cases, inl, inr,
  Result-cases, Str, str_eq, opt_str_eq, trim, take, ltb, any, is_control,
}
use riscv_exam_computer.Base.OrderedMap.{get, contains_key, remove, update}
use riscv_exam_computer.Base.OrderedMap.Laws.{All-remove, All-update}
use riscv_exam_computer.Base.OrderedMap.Sorted.{remove-Sorted, update-Sorted}
use riscv_exam_computer.Proto.{JobKind, ExamPayload}
use riscv_exam_computer.Seb.{ExamSpec}
use riscv_exam_computer.SebFile.Values.{Ext}
use riscv_exam_computer.Fleet.Model.{Fleet, Board, Exam, Level, Actor, max_exams, max_label}
use riscv_exam_computer.Fleet.Log.{log}
use riscv_exam_computer.Fleet.Enqueue.{
  Sweep, enqueue, payload_of, log_hosts, log_summary, first_sweep,
}
use riscv_exam_computer.Fleet.Enqueue.Partition.{swept}
use riscv_exam_computer.SebFile.Hex.{hex}
use riscv_exam_computer.Fleet.Exams.Creation.{new_exam-IsChecked}
use riscv_exam_computer.Fleet.Exams.{take_exam, new_exam, create_exam, delete_exam}
use riscv_exam_computer.Fleet.Admin.{set_label, label_of, rename_board, rename, forget}
use riscv_exam_computer.Fleet.Invariant.Boards.{IsFiled, HasSalt, IsWellFormed, sweep-IsFiled}
use riscv_exam_computer.Fleet.Invariant.Reports.{log-IsWellFormed}

log_hosts-IsWellFormed :
    (f : Fleet) (wall_ms : ℕ) (evs : List (Str × Str))
    → IsWellFormed f
    → IsWellFormed (log_hosts f wall_ms evs)
unfolding log_hosts
log_hosts-IsWellFormed f wall_ms [] w = w
log_hosts-IsWellFormed f wall_ms ((host, text) ∷ evs) w =
    log_hosts-IsWellFormed (log f wall_ms Actor.instructor Level.info (some host) text) wall_ms evs
      (log-IsWellFormed f wall_ms _ _ _ _ w.sorted w.filed w.exams_capped w.salted)

log_summary-IsWellFormed :
    (f : Fleet) (wall_ms : ℕ) (payload : Option ExamPayload) (s : Sweep)
    → IsWellFormed f
    → IsWellFormed (log_summary f wall_ms payload s)
unfolding log_summary
log_summary-IsWellFormed f wall_ms payload s w =
    elim (Bool-cases (not (null s.queued) || not (null s.skipped))) [
      | inl e ↦
          rw (e, log_summary)
            (log-IsWellFormed f wall_ms _ _ _ _ w.sorted w.filed w.exams_capped w.salted)
      | inr e ↦ rw (e, log_summary) w
    ]

pub enqueue-IsWellFormed :
    (ext : Ext) (f : Fleet) (hosts : List Str) (kind : JobKind) (exam_id : Option Str)
    (now wall_ms : ℕ)
    → IsWellFormed f
    → IsWellFormed (enqueue ext f hosts kind exam_id now wall_ms).0
unfolding enqueue
enqueue-IsWellFormed ext f hosts kind exam_id now wall_ms w =
    elim (Result-cases (payload_of ext f.public_url f.exams kind exam_id)) [
      | inr (why, p) ↦ rw (p, enqueue) w
      | inl (payload, p) ↦
          let s = swept f hosts kind payload now in
          let (sorted, filed) =
            sweep-IsFiled kind payload now (first_sweep f) (take f.max_boards hosts)
              (w.sorted, w.filed) in
          let g = record f { boards = s.boards; next_job_id = s.next_job_id } in
          let well : IsWellFormed g = record {
            sorted = sorted;
            filed = filed;
            log_capped = w.log_capped;
            exams_capped = w.exams_capped;
            salted = w.salted;
          } in
          rw (p, enqueue)
            (log_summary-IsWellFormed (log_hosts g wall_ms s.events) wall_ms payload s
              (log_hosts-IsWellFormed g wall_ms s.events well))
    ]

rename_board-IsWellFormed :
    (f : Fleet) (host : Str) (label : Option Str) (wall_ms : ℕ) (b : Board)
    → IsWellFormed f
    → IsWellFormed (rename_board f host label wall_ms b)
unfolding rename_board
rename_board-IsWellFormed f host label wall_ms b w =
    elim (Bool-cases (opt_str_eq b.rec.label label)) [
      | inl e ↦ rw (e, rename_board) w
      | inr e ↦
          rw (e, rename_board)
            (log-IsWellFormed (record f { boards = update host (set_label label) f.boards }) wall_ms
              _ _ _ _ (update-Sorted host (set_label label) f.boards w.sorted)
              (All-update IsFiled host (set_label label) f.boards (λ j v q. (q.0, q.1, q.2))
                w.filed)
              w.exams_capped w.salted)
    ]

pub rename-IsWellFormed :
    (f : Fleet) (host label : Str) (wall_ms : ℕ)
    → IsWellFormed f
    → IsWellFormed (rename f host label wall_ms).0
unfolding rename
rename-IsWellFormed f host label wall_ms w =
    elim (Bool-cases (ltb max_label (length (trim label)))) [
      | inl e ↦ rw (e, rename) w
      | inr short ↦ elim (Bool-cases (any is_control (trim label))) [
        | inl e ↦ rw (short, e, rename) w
        | inr plain ↦ elim (Option-cases (get host f.boards)) [
          | inl e ↦ rw (short, plain, e, rename) w
          | inr (b, e) ↦
              rw (short, plain, e, rename)
                (rename_board-IsWellFormed f host (label_of host (trim label)) wall_ms b w)
        ]
      ]
    ]

pub forget-IsWellFormed :
    (f : Fleet) (host : Str) (wall_ms : ℕ) → IsWellFormed f → IsWellFormed (forget f host wall_ms).0
unfolding forget
forget-IsWellFormed f host wall_ms w = elim (Bool-cases (contains_key host f.boards)) [
  | inr e ↦ rw (e, forget) w
  | inl e ↦
      rw (e, forget)
        (log-IsWellFormed (record f { boards = remove host f.boards; cap_warned = false }) wall_ms _
          _ _ _ (remove-Sorted host f.boards w.sorted) (All-remove IsFiled host f.boards w.filed)
          w.exams_capped w.salted)
]

hex-null : (salt : List ℕ) → null salt ≡ false → null (hex salt) ≡ false
unfolding hex
hex-null [] h = h
hex-null (b ∷ bs) h = refl

pub create_exam-IsWellFormed :
    (ext : Ext) (f : Fleet) (id name : Str) (spec : ExamSpec) (salt : List ℕ) (wall_ms : ℕ)
    → null salt ≡ false
    → IsWellFormed f
    → IsWellFormed (create_exam ext f id name spec salt wall_ms).0
unfolding create_exam
create_exam-IsWellFormed ext f id name spec salt wall_ms drawn w =
    elim (Result-cases (new_exam ext f.public_url f.exams id name spec salt wall_ms)) [
      | inr (why, p) ↦ rw (p, create_exam) w
      | inl (e, p) ↦
          let c = new_exam-IsChecked ext f.public_url f.exams id name spec salt wall_ms e p in
          let fits : length (f.exams ++ e ∷ []) ≤ max_exams =
            omega (arith, c.room, length-append {0} f.exams (e ∷ [])) in
          let salted : HasSalt e =
            ap (λ (x : Exam). null x.seb_salt) c.made ∙ hex-null salt drawn in
          rw (p, create_exam)
            (log-IsWellFormed (record f { exams = f.exams ++ e ∷ [] }) wall_ms _ _ _ _ w.sorted
              w.filed fits (All-append HasSalt f.exams (e ∷ []) w.salted (salted, tt)))
    ]

take_exam_lem :
    (es : List Exam) (id : Str) (e : Exam) (rest : List Exam)
    → take_exam es id ≡ some (e, rest)
    → All HasSalt es
    → (length rest ≤ length es) × All HasSalt rest
unfolding take_exam
take_exam_lem [] id e rest h s = absurd (cc)
take_exam_lem (x ∷ xs) id e rest h (p, s) = elim (Bool-cases (str_eq x.id id)) [
  | inl hit ↦
      let q = rw (hit, take_exam) at h in
      let same : xs ≡ rest = ground arith in
      (omega (arith, ap length same), subst (All HasSalt) same s)
  | inr miss ↦ elim (Option-cases (take_exam xs id)) [
    | inl n ↦ absurd (ground arith)
    | inr (r, q) ↦
        let same : x ∷ r.1 ≡ rest = ground arith in
        let tail = take_exam_lem xs id r.0 r.1 q s in
        (
          subst (λ z. length z ≤ suc (length xs)) same (omega (arith, tail.0)),
          subst (All HasSalt) same (p, tail.1),
        )
  ]
]

pub delete_exam-IsWellFormed :
    (f : Fleet) (id : Str) (wall_ms : ℕ)
    → IsWellFormed f
    → IsWellFormed (delete_exam f id wall_ms).0
unfolding delete_exam
delete_exam-IsWellFormed f id wall_ms w = elim (Option-cases (take_exam f.exams id)) [
  | inl e ↦ rw (e, delete_exam) w
  | inr ((x, rest), e) ↦
      let (fits, salted) = take_exam_lem f.exams id x rest e w.salted in
      let n : length rest ≤ max_exams = omega (arith, w.exams_capped) in
      rw (e, delete_exam)
        (log-IsWellFormed (record f { exams = rest }) wall_ms _ _ _ _ w.sorted w.filed n salted)
]
