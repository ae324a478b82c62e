-- ===== src/Fleet/Log/Frame.antt =====
-- What logging leaves alone, and the bound that it keeps.
use riscv_exam_computer.Base.{
  ℕ, ◌-◌, ◌≤◌, ◌≡◌, refl, ◌∙◌, Option, some, List, [], ◌∷◌, ◌++◌, arith, length, length-drop, Str,
}
use riscv_exam_computer.Fleet.Model.{Fleet, Actor, Level, max_events}
use riscv_exam_computer.Fleet.Log.{trim_front, new_event, log, log_all}

pub length-trim_front {ℓ} : {A : Type ℓ} (cap : ℕ) (q : List A) → length (trim_front cap q) ≤ cap
unfolding trim_front
length-trim_front cap q = omega (arith, length-drop (length q - cap) q)

-- The fields that logging does not touch.
pub record SameBut (f g : Fleet) : Type 0 where
  pub boards : g.boards ≡ f.boards
  pub exams : g.exams ≡ f.exams
  pub next_job_id : g.next_job_id ≡ f.next_job_id
  pub max_boards : g.max_boards ≡ f.max_boards
  pub cap_warned : g.cap_warned ≡ f.cap_warned
  pub public_url : g.public_url ≡ f.public_url

pub log-SameBut :
    (f : Fleet) (wall_ms : ℕ) (actor : Actor) (level : Level) (host : Option Str) (text : Str)
    → SameBut f (log f wall_ms actor level host text)
unfolding log
log-SameBut f wall_ms actor level host text = record {
  boards = refl;
  exams = refl;
  next_job_id = refl;
  max_boards = refl;
  cap_warned = refl;
  public_url = refl;
}

pub SameBut-refl : (f : Fleet) → SameBut f f
SameBut-refl f = record {
  boards = refl;
  exams = refl;
  next_job_id = refl;
  max_boards = refl;
  cap_warned = refl;
  public_url = refl;
}

pub SameBut-trans : {f g h : Fleet} → SameBut f g → SameBut g h → SameBut f h
SameBut-trans p q = record {
  boards = q.boards ∙ p.boards;
  exams = q.exams ∙ p.exams;
  next_job_id = q.next_job_id ∙ p.next_job_id;
  max_boards = q.max_boards ∙ p.max_boards;
  cap_warned = q.cap_warned ∙ p.cap_warned;
  public_url = q.public_url ∙ p.public_url;
}

pub log_all-SameBut :
    (f : Fleet) (wall_ms : ℕ) (actor : Actor) (host : Str) (evs : List (Level × Str))
    → SameBut f (log_all f wall_ms actor host evs)
unfolding log_all
log_all-SameBut f wall_ms actor host [] = SameBut-refl f
log_all-SameBut f wall_ms actor host ((level, text) ∷ evs) =
    SameBut-trans (log-SameBut f wall_ms actor level (some host) text)
      (log_all-SameBut (log f wall_ms actor level (some host) text) wall_ms actor host evs)

pub log-length :
    (f : Fleet) (wall_ms : ℕ) (actor : Actor) (level : Level) (host : Option Str) (text : Str)
    → length (log f wall_ms actor level host text).log ≤ max_events
unfolding log
log-length f wall_ms actor level host text =
    length-trim_front max_events (f.log ++ new_event f wall_ms actor level host text ∷ [])

pub log_all-length :
    (f : Fleet) (wall_ms : ℕ) (actor : Actor) (host : Str) (evs : List (Level × Str))
    → length f.log ≤ max_events
    → length (log_all f wall_ms actor host evs).log ≤ max_events
unfolding log_all
log_all-length f wall_ms actor host [] h = h
log_all-length f wall_ms actor host ((level, text) ∷ evs) h =
    log_all-length (log f wall_ms actor level (some host) text) wall_ms actor host evs
      (log-length f wall_ms actor level (some host) text)
