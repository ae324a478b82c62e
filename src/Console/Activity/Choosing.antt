-- ===== src/Console/Activity/Choosing.antt =====
-- The list that is shown after a filter has been chosen.
use riscv_exam_computer.Base.{
  ℕ, zero, suc, ◌≡◌, ◌⊎◌, inl, inr, refl, ap, subst, true, false, Option, none, some, List, [], ◌∷◌,
  All, All-append, Bool-cases, Option-cases, opt_map, ok, err, Str,
}
use riscv_exam_computer.Fleet.Model.{EventView}
use riscv_exam_computer.Server.State.{App}
use riscv_exam_computer.Server.Api.{get_activity}
use riscv_exam_computer.Console.Activity.{Page, Asked, tick, choose, take_at, settle, answer}

-- The steps of the page but for a choice: a request is answered by the server, in whichever order, with
-- the list for its filter, or fails.
pub data Step (p : Page) : Page → Type 0 where
  ticked : Step p (tick p)
  answered :
      (i : ℕ) (r : Asked) (rest : List Asked) (a : App)
      → take_at i p.asked ≡ some (r, rest)
      → Step p (answer i (ok (get_activity a r.1)) p)
  failed : (i : ℕ) (e : Str) → Step p (answer i (err e) p)

pub data Reach (p : Page) : Page → Type 0 where
  here : Reach p p
  next : {q r : Page} → Reach p q → Step q r → Reach p r

abbrev AsksFor : Str → Asked → Type 0
AsksFor f r = r.1 ≡ f

-- The list of the server for a filter, at some time.
abbrev pub IsListing : Str → Option (List EventView) → Type 0
IsListing f events = (a : App) × (events ≡ some (get_activity a f))

record IsChosen (f : Str) (before : Option (List EventView)) (q : Page) : Type 0 where
  chosen : q.filter_by ≡ f
  asking : All (AsksFor f) q.asked
  shown : (q.events ≡ before) ⊎ IsListing f q.events

abbrev AllTaken {ℓ} : {A : Type ℓ} → (A → Type 0) → Option (A × List A) → Type 0
AllTaken P none = Unit
AllTaken P (some (x, rest)) = P x × All P rest

put_back-AllTaken {ℓ} :
    {A : Type ℓ} (P : A → Type 0) (y : A) (o : Option (A × List A))
    → P y
    → AllTaken P o
    → AllTaken P (opt_map (λ p. (p.0, y ∷ p.1)) o)
put_back-AllTaken P y none p h = tt
put_back-AllTaken P y (some (x, rest)) p (q, h) = (q, (p, h))

take_at-AllTaken {ℓ} :
    {A : Type ℓ} (P : A → Type 0) (i : ℕ) (xs : List A) → All P xs → AllTaken P (take_at i xs)
unfolding take_at
take_at-AllTaken P i [] h = tt
take_at-AllTaken P zero (y ∷ ys) (p, h) = (p, h)
take_at-AllTaken P (suc i) (y ∷ ys) (p, h) =
    put_back-AllTaken P y (take_at i ys) p (take_at-AllTaken P i ys h)

settle_ok-IsChosen :
    (f : Str) (before : Option (List EventView)) (r : Asked) (a : App) (p : Page)
    → AsksFor f r
    → IsChosen f before p
    → IsChosen f before (settle r (ok (get_activity a r.1)) p)
settle_ok-IsChosen f before (true, g) a p e c = record {
  chosen = c.chosen;
  asking = c.asking;
  shown = inr (a, ap (λ h. some (get_activity a h)) e);
}
settle_ok-IsChosen f before (false, g) a p e c = record {
  chosen = c.chosen;
  asking = c.asking;
  shown = inr (a, ap (λ h. some (get_activity a h)) e);
}

settle_err-IsChosen :
    (f : Str) (before : Option (List EventView)) (r : Asked) (e : Str) (p : Page)
    → IsChosen f before p
    → IsChosen f before (settle r (err e) p)
settle_err-IsChosen f before (true, g) e p c = record {
  chosen = c.chosen;
  asking = c.asking;
  shown = c.shown;
}
settle_err-IsChosen f before (false, g) e p c = c

Step-IsChosen :
    {p q : Page} (f : Str) (before : Option (List EventView))
    → Step p q
    → IsChosen f before p
    → IsChosen f before q
unfolding tick answer
Step-IsChosen {p} f before ticked c = elim (Bool-cases p.busy) [
  | inl e ↦ rw e (record { chosen = c.chosen; asking = c.asking; shown = c.shown })
  | inr e ↦ rw e (record {
    chosen = c.chosen;
    asking = All-append (AsksFor f) p.asked ((true, p.filter_by) ∷ []) c.asking (c.chosen, tt);
    shown = c.shown;
  })
]
Step-IsChosen {p} f before (answered i r rest a e) c =
    let taken : AllTaken (AsksFor f) (some (r, rest)) =
      subst (AllTaken (AsksFor f)) e (take_at-AllTaken (AsksFor f) i p.asked c.asking) in
    rw (answer, e)
      (settle_ok-IsChosen f before r a (record p { asked = rest }) taken.0
        (record { chosen = c.chosen; asking = taken.1; shown = c.shown }))
Step-IsChosen {p} f before (failed i why) c = elim (Option-cases (take_at i p.asked)) [
  | inl e ↦ rw (answer, e) c
  | inr ((r, rest), e) ↦
      let taken : AllTaken (AsksFor f) (some (r, rest)) =
        subst (AllTaken (AsksFor f)) e (take_at-AllTaken (AsksFor f) i p.asked c.asking) in
      rw (answer, e)
        (settle_err-IsChosen f before r why (record p { asked = rest })
          (record { chosen = c.chosen; asking = taken.1; shown = c.shown }))
]

Reach-IsChosen :
    {p q : Page} (f : Str) (before : Option (List EventView))
    → Reach p q
    → IsChosen f before p
    → IsChosen f before q
Reach-IsChosen f before here c = c
Reach-IsChosen f before (next r step) c = Step-IsChosen f before step (Reach-IsChosen f before r c)

-- If no request for another filter is under way when a filter is chosen, then until the next choice the
-- page shows the list that it showed before or a list of the server for the chosen filter, in whichever
-- order the requests are answered.
pub choose-IsListing :
    {q : Page} (f : Str) (p : Page)
    → All (λ (r : Asked). r.1 ≡ f) p.asked
    → Reach (choose f p) q
    → (q.filter_by ≡ f) × ((q.events ≡ p.events) ⊎ IsListing f q.events)
unfolding choose
choose-IsListing {q} f p asking reach =
    let c : IsChosen f p.events q = Reach-IsChosen f p.events reach (record {
      chosen = refl;
      asking = All-append (AsksFor f) p.asked ((false, f) ∷ []) asking (refl, tt);
      shown = inl refl;
    }) in
    (c.chosen, c.shown)
