-- ===== src/Base/OrderedMap/Sorted.antt =====
-- The order of the entries of an ordered map.
use Prim.Native.Nat.{Ordering}
use mathlib.Core.Path.{◌≡◌, refl}
use mathlib.Core.Logic.{inl, inr}
use mathlib.Core.List.{List, [], ◌∷◌, ◌++◌}
use native.Mathlib.Omega.{arith}
use riscv_exam_computer.Base.Tests.{Bool-cases}
use riscv_exam_computer.Base.Text.{Str, cmp, str_eq, cmp_iff}
use riscv_exam_computer.Base.OrderedMap.{insert, remove, update}

pub cmp_flip : (s t : Str) → cmp s t ≡ Ordering.gt → cmp t s ≡ Ordering.lt
unfolding cmp
cmp_flip [] [] h = cc
cmp_flip [] (y ∷ t) h = cc
cmp_flip (x ∷ s) [] h = refl
cmp_flip (x ∷ s) (y ∷ t) h = ground (arith, cmp_flip s t)

pub cmp_flip_lt : (s t : Str) → cmp s t ≡ Ordering.lt → cmp t s ≡ Ordering.gt
unfolding cmp
cmp_flip_lt [] [] h = cc
cmp_flip_lt [] (y ∷ t) h = refl
cmp_flip_lt (x ∷ s) [] h = cc
cmp_flip_lt (x ∷ s) (y ∷ t) h = ground (arith, cmp_flip_lt s t)

pub cmp_trans :
    (s t u : Str) → cmp s t ≡ Ordering.lt → cmp t u ≡ Ordering.lt → cmp s u ≡ Ordering.lt
unfolding cmp
cmp_trans [] [] u h k = cc
cmp_trans [] (y ∷ t) [] h k = cc
cmp_trans [] (y ∷ t) (z ∷ u) h k = refl
cmp_trans (x ∷ s) [] u h k = cc
cmp_trans (x ∷ s) (y ∷ t) [] h k = cc
cmp_trans (x ∷ s) (y ∷ t) (z ∷ u) h k = ground (arith, cmp_trans s t u)

module _ {ℓ} {V : Type ℓ} where
  -- Every key of the map comes after this one.
  abbrev pub Before : Str → List (Str × V) → Type 0
  Before k [] = Unit
  Before k ((j, v) ∷ m) = (cmp k j ≡ Ordering.lt) × Before k m

  -- Every key of the map comes before this one.
  abbrev pub After : Str → List (Str × V) → Type 0
  After k [] = Unit
  After k ((j, v) ∷ m) = (cmp j k ≡ Ordering.lt) × After k m

  abbrev pub Sorted : List (Str × V) → Type 0
  Sorted [] = Unit
  Sorted ((k, v) ∷ m) = Before k m × Sorted m

  Before-trans : (k j : Str) (m : List (Str × V)) → cmp k j ≡ Ordering.lt → Before j m → Before k m
  Before-trans k j [] h b = tt
  Before-trans k j ((i, v) ∷ m) h (p, b) = (cmp_trans k j i h p, Before-trans k j m h b)

  Before-insert :
      (j k : Str) (v : V) (m : List (Str × V))
      → cmp j k ≡ Ordering.lt
      → Before j m
      → Before j (insert k v m)
  unfolding insert
  Before-insert j k v [] h b = (h, tt)
  Before-insert j k v ((i, w) ∷ m) h (p, b) = ground (arith, Before-insert j k v m h b)

  pub insert-Sorted : (k : Str) (v : V) (m : List (Str × V)) → Sorted m → Sorted (insert k v m)
  unfolding insert
  insert-Sorted k v [] s = (tt, tt)
  insert-Sorted k v ((i, w) ∷ m) (b, s) =
      elim (cmp k i)
          as (λ o.
            cmp k i ≡ o
            → Sorted (elim o as (λ _. List (Str × V)) [
              | Ordering.lt ↦ (k, v) ∷ (i, w) ∷ m
              | Ordering.eq ↦ (k, v) ∷ m
              | Ordering.gt ↦ (i, w) ∷ insert k v m
            ])) [
              | Ordering.lt ↦ λ e. ((e, Before-trans k i m e b), (b, s))
              | Ordering.eq ↦ λ e. ((let same = (cmp_iff k i).0 e in rw same b), s)
              | Ordering.gt ↦ λ e. (Before-insert i k v m (cmp_flip k i e) b, insert-Sorted k v m s)
            ]
        refl

  Before-remove : (j k : Str) (m : List (Str × V)) → Before j m → Before j (remove k m)
  unfolding remove
  Before-remove j k [] b = tt
  Before-remove j k ((i, w) ∷ m) (p, b) = ground (arith, Before-remove j k m b)

  pub remove-Sorted : (k : Str) (m : List (Str × V)) → Sorted m → Sorted (remove k m)
  unfolding remove
  remove-Sorted k [] s = tt
  remove-Sorted k ((i, w) ∷ m) (b, s) = elim (Bool-cases (str_eq i k)) [
    | inl e ↦ rw e (remove-Sorted k m s)
    | inr e ↦ rw e (Before-remove i k m b, remove-Sorted k m s)
  ]

  Before-update :
      (j k : Str) (f : V → V) (m : List (Str × V)) → Before j m → Before j (update k f m)
  unfolding update
  Before-update j k f [] b = tt
  Before-update j k f ((i, w) ∷ m) (p, b) = ground (arith, Before-update j k f m b)

  pub update-Sorted : (k : Str) (f : V → V) (m : List (Str × V)) → Sorted m → Sorted (update k f m)
  unfolding update
  update-Sorted k f [] s = tt
  update-Sorted k f ((i, w) ∷ m) (b, s) = elim (Bool-cases (str_eq i k)) [
    | inl e ↦ rw e (Before-update i k f m b, update-Sorted k f m s)
    | inr e ↦ rw e (Before-update i k f m b, update-Sorted k f m s)
  ]

  -- A key behind all others goes to the end.
  pub insert_last :
      (k : Str) (v : V) (m : List (Str × V)) → After k m → insert k v m ≡ m ++ (k, v) ∷ []
  unfolding insert
  insert_last k v [] a = refl
  insert_last k v ((i, w) ∷ m) (p, a) = ground (arith, cmp_flip_lt i k p, insert_last k v m a)

  pub After-append : (k : Str) (v : V) (m r : List (Str × V)) → Sorted (m ++ (k, v) ∷ r) → After k m
  After-append k v [] r s = tt
  After-append k v ((i, w) ∷ m) r (b, s) = (Before-at i k v m r b, After-append k v m r s)
    where
      Before-at :
          (i k : Str) (v : V) (m r : List (Str × V))
          → Before i (m ++ (k, v) ∷ r)
          → cmp i k ≡ Ordering.lt
      Before-at i k v [] r (p, b) = p
      Before-at i k v ((j, u) ∷ m) r (p, b) = Before-at i k v m r b
