-- ===== src/Tests/Requests.antt =====
-- Starts and stops, and the creation of exams.
use riscv_exam_computer.Base.{
  ℕ, ◌+◌, ◌≡◌, ◌↔◌, refl, Bool, none, some, List, [], ◌∷◌, take, null, trim, Result, ok, err, Str,
  txt, mem_str, if◌then◌else◌,
}
use riscv_exam_computer.Proto.{ExamPayload, start, stop}
use riscv_exam_computer.Fleet.Model.{Fleet, ActionReport, from_secs}
use riscv_exam_computer.Fleet.Exams.{create_exam, exam}
use riscv_exam_computer.Fleet.Exams.Creation.{created_exam-starts}
use riscv_exam_computer.Fleet.Enqueue.{enqueue, payload_of, report_of}
use riscv_exam_computer.Fleet.Enqueue.Partition.{count, hosts_of, swept, enqueue-partition}
use riscv_exam_computer.Tests.Data.{pair-eq, plain_ext, host1, waiting_fleet, exam_spec}

abbrev asked : List Str
asked = host1 ∷ txt "nobody" ∷ host1 ∷ []

abbrev answer : Fleet × Result Str ActionReport
answer = enqueue plain_ext waiting_fleet asked stop none (from_secs 2) 0

abbrev stop_report : ActionReport
stop_report = report_of stop (swept waiting_fleet asked stop none (from_secs 2))

enqueue-partition_example :
    count host1 stop_report.queued + count host1 (hosts_of stop_report.skipped)
    ≡ (if mem_str host1 (take 3 asked) then 1 else 0)
unfolding enqueue payload_of
enqueue-partition_example =
    enqueue-partition plain_ext waiting_fleet answer.0 asked stop none (from_secs 2) 0 stop_report
      host1 (pair-eq answer refl)

abbrev created : Fleet × Result Str Str
created = create_exam plain_ext waiting_fleet (txt "e1") (txt " Exam ") exam_spec (1 ∷ []) 0

created_exam-starts_example :
    (p : ExamPayload) × (payload_of plain_ext created.0.public_url created.0.exams start
        (some (txt "e1"))
      ≡ ok (some p))
    × (p.id ≡ txt "e1")
    × (p.name ≡ trim (txt " Exam "))
unfolding create_exam exam txt trim riscv_exam_computer.Seb.normalize_domain
    riscv_exam_computer.Base.contains_str riscv_exam_computer.Base.to_ascii_lowercase
    riscv_exam_computer.Base.utf8_len riscv_exam_computer.Base.split
    riscv_exam_computer.Base.is_ascii_alphanumeric riscv_exam_computer.Seb.effective_domains
    riscv_exam_computer.Seb.url_host riscv_exam_computer.Base.strip_prefix
    riscv_exam_computer.Base.rsplit_once riscv_exam_computer.SebFile.Hex.from_hex
    riscv_exam_computer.Base.utf8
created_exam-starts_example =
    created_exam-starts plain_ext waiting_fleet created.0 (txt "e1") (txt " Exam ") exam_spec
      (1 ∷ []) 0 (txt "e1") (pair-eq created refl) refl refl
