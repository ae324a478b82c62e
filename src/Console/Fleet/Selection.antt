-- ===== src/Console/Fleet/Selection.antt =====
-- The selection of the fleet page over all that an instructor does there.
use riscv_exam_computer.Base.{
  ◌≡◌, refl, ap, ◌∙◌, Bool, true, false, ◌||◌, List, [], ◌∷◌, All, All-filter, any, filter, null,
  is_some, if◌then◌else◌, Bool-cases, ||-true, inl, inr, Str, str_eq, str_eq_refl,
}
use riscv_exam_computer.Base.OrderedMap.{get, contains_key}
use riscv_exam_computer.Base.OrderedMap.Laws.{get-insert, All-insert, All-remove}
use riscv_exam_computer.Base.OrderedMap.Sorted.{Before, Sorted, insert-Sorted, remove-Sorted}
use riscv_exam_computer.Fleet.Model.{BoardView, ExamChoice, FleetView, Status}
use riscv_exam_computer.Console.Fleet.{
  Page, Hosts, host_set, keep_exam, retain, show, toggle, is_online, select_online, clear_selection,
  press_tile,
}

abbrev IsIn : Hosts → Str × Unit {0} → Type 0
IsIn hosts e = contains_key e.0 hosts ≡ true

abbrev exists : List ExamChoice → Str → Bool
exists exams id = any (λ e. str_eq e.id id) exams

-- The selected hosts are boards of the page, in order and each once, and the chosen exam is one of the
-- page, if it has any.
pub record IsShown (p : Page) : Type 0 where
  pub known : All (IsIn (host_set p.boards)) p.selected
  pub sorted : Sorted p.selected
  pub chosen : (null p.exams || exists p.exams p.exam) ≡ true

-- What happens on the page: a view is fetched; the box of a shown board, a button or a tile is pressed; an
-- exam of the list is chosen.
pub data Step (p : Page) : Page → Type 0 where
  fetched : (v : FleetView) → Step p (show v p)
  toggled : (h : Str) → contains_key h (host_set p.boards) ≡ true → Step p (toggle h p)
  all_online : Step p (select_online p)
  cleared : Step p (clear_selection p)
  filtered : (st : Status) → Step p (press_tile st p)
  picked : (id : Str) → exists p.exams id ≡ true → Step p (record p { exam = id })

pub data Reach (p : Page) : Page → Type 0 where
  here : Reach p p
  next : {q r : Page} → Reach p q → Step q r → Reach p r

retain-known : (hosts s : Hosts) → All (IsIn hosts) (retain hosts s)
unfolding retain
retain-known hosts [] = tt
retain-known hosts ((h, u) ∷ s) = elim (Bool-cases (contains_key h hosts)) [
  | inl e ↦ rw e (e, retain-known hosts s)
  | inr e ↦ rw e (retain-known hosts s)
]

Before-retain : (k : Str) (hosts s : Hosts) → Before k s → Before k (retain hosts s)
unfolding retain
Before-retain k hosts [] b = tt
Before-retain k hosts ((h, u) ∷ s) (p, b) = elim (Bool-cases (contains_key h hosts)) [
  | inl e ↦ rw e (p, Before-retain k hosts s b)
  | inr e ↦ rw e (Before-retain k hosts s b)
]

retain-Sorted : (hosts s : Hosts) → Sorted s → Sorted (retain hosts s)
unfolding retain
retain-Sorted hosts [] s = tt
retain-Sorted hosts ((h, u) ∷ m) (b, s) = elim (Bool-cases (contains_key h hosts)) [
  | inl e ↦ rw e (Before-retain h hosts m b, retain-Sorted hosts m s)
  | inr e ↦ rw e (retain-Sorted hosts m s)
]

host_set-Sorted : (bs : List BoardView) → Sorted (host_set bs)
unfolding host_set
host_set-Sorted [] = tt
host_set-Sorted (b ∷ bs) = insert-Sorted b.host tt (host_set bs) (host_set-Sorted bs)

host_set-contains :
    (h : Str) (bs : List BoardView) → contains_key h (host_set bs) ≡ any (λ b. str_eq b.host h) bs
unfolding contains_key host_set get
host_set-contains h [] = refl
host_set-contains h (b ∷ bs) =
    let rest = host_set-contains h bs in
    let e = get-insert b.host h tt (host_set bs) in
    ap is_some e ∙ elim (Bool-cases (str_eq b.host h)) [ inl t ↦ rw t refl | inr t ↦ rw t rest ]

keep_exam-exists :
    (exams : List ExamChoice) (cur : Str)
    → (null exams || exists exams (keep_exam exams cur)) ≡ true
unfolding keep_exam
keep_exam-exists [] cur = refl
keep_exam-exists (e ∷ es) cur =
    let first : exists (e ∷ es) e.id ≡ true = rw (str_eq_refl e.id) refl in
    elim (exists (e ∷ es) cur)
        as (λ b. exists (e ∷ es) cur ≡ b → exists (e ∷ es) (if b then cur else e.id) ≡ true) [
          | true ↦ λ h. h
          | false ↦ λ h. first
        ]
      refl

-- The boards of a part of the page are boards of the page.
All-host_set :
    (P : Str × Unit {0} → Type 0) (bs : List BoardView)
    → All (λ b. P (b.host, tt)) bs
    → All P (host_set bs)
unfolding host_set
All-host_set P [] h = tt
All-host_set P (b ∷ bs) (p, h) = All-insert P b.host tt (host_set bs) p (All-host_set P bs h)

abbrev has_board : List BoardView → Str → Bool
has_board bs h = any (λ b. str_eq b.host h) bs

All-has_board :
    (page bs : List BoardView)
    → ((h : Str) → has_board bs h ≡ true → has_board page h ≡ true)
    → All (λ (b : BoardView). has_board page b.host ≡ true) bs
All-has_board page [] within = tt
All-has_board page (b ∷ bs) within =
    let first : has_board (b ∷ bs) b.host ≡ true = rw (str_eq_refl b.host) refl in
    (
      within b.host first,
      All-has_board page bs (λ h e. within h (rw e (||-true (str_eq b.host h)))),
    )

All-map {ℓ} :
    {A : Type ℓ} (P Q : A → Type 0) (xs : List A) → ((a : A) → P a → Q a) → All P xs → All Q xs
All-map P Q [] f h = tt
All-map P Q (x ∷ xs) f (p, h) = (f x p, All-map P Q xs f h)

select_online-known :
    (bs : List BoardView) → All (IsIn (host_set bs)) (host_set (filter is_online bs))
select_online-known bs =
    let all_in =
      All-map (λ b. has_board bs b.host ≡ true) (λ b. IsIn (host_set bs) (b.host, tt)) bs
        (λ b e. host_set-contains b.host bs ∙ e) (All-has_board bs bs (λ h e. e)) in
    All-host_set (IsIn (host_set bs)) (filter is_online bs)
      (All-filter (λ b. IsIn (host_set bs) (b.host, tt)) is_online bs all_in)

Step-IsShown : {p q : Page} → Step p q → IsShown p → IsShown q
unfolding show toggle select_online clear_selection press_tile
Step-IsShown {p} (fetched v) s = record {
  known = retain-known (host_set v.boards) p.selected;
  sorted = retain-Sorted (host_set v.boards) p.selected s.sorted;
  chosen = keep_exam-exists v.exams p.exam;
}
Step-IsShown {p} (toggled h shown) s = elim (Bool-cases (contains_key h p.selected)) [
  | inl e ↦ rw e (record {
    known = All-remove (IsIn (host_set p.boards)) h p.selected s.known;
    sorted = remove-Sorted h p.selected s.sorted;
    chosen = s.chosen;
  })
  | inr e ↦ rw e (record {
    known = All-insert (IsIn (host_set p.boards)) h tt p.selected shown s.known;
    sorted = insert-Sorted h tt p.selected s.sorted;
    chosen = s.chosen;
  })
]
Step-IsShown {p} all_online s = record {
  known = select_online-known p.boards;
  sorted = host_set-Sorted (filter is_online p.boards);
  chosen = s.chosen;
}
Step-IsShown cleared s = record { known = tt; sorted = tt; chosen = s.chosen }
Step-IsShown (filtered st) s = record { known = s.known; sorted = s.sorted; chosen = s.chosen }
Step-IsShown {p} (picked id e) s = record {
  known = s.known;
  sorted = s.sorted;
  chosen = rw e (||-true (null p.exams));
}

-- Whatever is fetched and pressed on the page, in any order: the selected hosts are boards that the
-- page shows, in order and each once, and the chosen exam is one of the list, unless that is empty.
pub Reach-IsShown : {p q : Page} → Reach p q → IsShown p → IsShown q
Reach-IsShown here s = s
Reach-IsShown (next r step) s = Step-IsShown step (Reach-IsShown r s)
