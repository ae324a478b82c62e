-- ===== src/Server/State/Saving.antt =====
-- What saving writes, and what it leaves to be saved.
use riscv_exam_computer.Base.{
  ◌≡◌, refl, ap, ◌∙◌, Bool, true, false, not, ◌&&◌, ◌||◌, none, some, arith, if◌then◌else◌,
  Bool-cases, inl, inr,
}
use riscv_exam_computer.Fleet.Admin.{snapshot}
use riscv_exam_computer.Server.State.{App, set_dirty, take_snapshot, finish_save, write_taken, save}

abbrev pub saves : Bool → App → Bool
saves force a = a.has_store && (a.fleet.dirty || force)

abbrev pub rests : Bool → App → Bool
rests force a = not a.has_store || (not a.fleet.dirty && not force)

saves-rests : (force : Bool) (a : App) → saves force a ≡ not (rests force a)
saves-rests force a = ground arith

save-rests :
    (force written : Bool) (a : App) → rests force a ≡ true → save force written a ≡ (a, none)
unfolding save take_snapshot write_taken
save-rests force written a e =
    let taken : take_snapshot force a ≡ (a, none) = rw (take_snapshot, e) refl in
    ap (write_taken written) taken

save-acts :
    (force written : Bool) (a : App)
    → rests force a ≡ false
    → save force written a ≡ (finish_save written (set_dirty false a), some (snapshot a.fleet))
unfolding save take_snapshot write_taken
save-acts force written a e =
    let taken : take_snapshot force a ≡ (set_dirty false a, some (snapshot a.fleet)) =
      rw (take_snapshot, e) refl in
    ap (write_taken written) taken

pub finish_save-snapshot :
    (written : Bool) (a : App)
    → (snapshot (finish_save written (set_dirty false a)).fleet ≡ snapshot a.fleet)
      × ((finish_save written (set_dirty false a)).fleet.dirty ≡ not written)
unfolding finish_save snapshot
finish_save-snapshot true a = (refl, refl)
finish_save-snapshot false a = (refl, refl)

-- A save happens exactly with a store, if something changed or it is forced. It hands the store
-- the snapshot of the fleet and changes nothing of what a snapshot has; then the fleet is marked as
-- changed exactly if the write failed.
save-saves :
    (force written : Bool) (a : App)
    → ((save force written a).1 ≡ (if saves force a then some (snapshot a.fleet) else none))
      × (snapshot (save force written a).0.fleet ≡ snapshot a.fleet)
      × ((save force written a).0.fleet.dirty
          ≡ (if saves force a then not written else a.fleet.dirty))
save-saves force written a = elim (Bool-cases (rests force a)) [
  | inl e ↦
      let off : saves force a ≡ false = saves-rests force a ∙ ap not e in
      let same = save-rests force written a e in
      rw off (ap (λ r. r.1) same, ap (λ r. snapshot r.0.fleet) same, ap (λ r. r.0.fleet.dirty) same)
  | inr e ↦
      let on : saves force a ≡ true = saves-rests force a ∙ ap not e in
      let same = save-acts force written a e in
      let (kept, dirty) = finish_save-snapshot written a in
      rw on (
        ap (λ r. r.1) same,
        ap (λ r. snapshot r.0.fleet) same ∙ kept,
        ap (λ r. r.0.fleet.dirty) same ∙ dirty,
      )
]
