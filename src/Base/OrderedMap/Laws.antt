-- ===== src/Base/OrderedMap/Laws.antt =====
-- Lookup after each change of an ordered map, and what the changes keep.
use Prim.Native.Nat.{◌+◌, ◌≤◌}
use mathlib.Core.Path.{◌≡◌, refl, subst}
use mathlib.Core.Logic.{inl, inr}
use mathlib.Core.Option.{none, some}
use mathlib.Core.List.{List, [], ◌∷◌}
use native.Mathlib.Omega.{arith}
use riscv_exam_computer.Base.Tests.{if◌then◌else◌, opt_map, Bool-cases}
use riscv_exam_computer.Base.Lists.{All, length}
use riscv_exam_computer.Base.Text.{Str, str_eq, cmp_iff, str_eq_iff}
use riscv_exam_computer.Base.OrderedMap.{get, insert, remove, update, keys}

module _ {ℓ} {V : Type ℓ} where
  pub get-insert :
      (k j : Str) (v : V) (m : List (Str × V))
      → get j (insert k v m) ≡ (if str_eq k j then some v else get j m)
  unfolding get insert
  get-insert k j v [] = refl
  get-insert k j v ((i, w) ∷ m) =
      ground (arith, cmp_iff k i, str_eq_iff k j, str_eq_iff i j, get-insert k j v m)

  pub get-remove :
      (k j : Str) (m : List (Str × V)) → get j (remove k m) ≡ (if str_eq k j then none else get j m)
  unfolding get remove
  get-remove k j [] = ground arith
  get-remove k j ((i, w) ∷ m) =
      ground (arith, str_eq_iff i k, str_eq_iff k j, str_eq_iff i j, get-remove k j m)

  pub get-update :
      (k j : Str) (f : V → V) (m : List (Str × V))
      → get j (update k f m) ≡ (if str_eq k j then opt_map f (get j m) else get j m)
  unfolding get update
  get-update k j f [] = ground arith
  get-update k j f ((i, w) ∷ m) =
      ground (arith, str_eq_iff i k, str_eq_iff k j, str_eq_iff i j, get-update k j f m)

  pub keys-update : (k : Str) (f : V → V) (m : List (Str × V)) → keys (update k f m) ≡ keys m
  unfolding update
  keys-update k f [] = refl
  keys-update k f ((i, w) ∷ m) = ground (arith, keys-update k f m)

  pub length-update : (k : Str) (f : V → V) (m : List (Str × V)) → length (update k f m) ≡ length m
  unfolding update
  length-update k f [] = refl
  length-update k f ((i, w) ∷ m) = ground (arith, length-update k f m)

  pub length-insert-le :
      (k : Str) (v : V) (m : List (Str × V)) → length (insert k v m) ≤ length m + 1
  unfolding insert
  length-insert-le k v [] = omega arith
  length-insert-le k v ((i, w) ∷ m) = ground (arith, length-insert-le k v m)

  pub length-remove-le : (k : Str) (m : List (Str × V)) → length (remove k m) ≤ length m
  unfolding remove
  length-remove-le k [] = omega arith
  length-remove-le k ((i, w) ∷ m) = ground (arith, length-remove-le k m)

module _ {ℓ κ} {V : Type ℓ} (P : Str × V → Type κ) where
  pub All-insert :
      (k : Str) (v : V) (m : List (Str × V)) → P (k, v) → All P m → All P (insert k v m)
  unfolding insert
  All-insert k v [] p h = (p, tt)
  All-insert k v ((i, w) ∷ m) p (q, h) = ground (arith, All-insert k v m p h)

  pub All-remove : (k : Str) (m : List (Str × V)) → All P m → All P (remove k m)
  unfolding remove
  All-remove k [] h = tt
  All-remove k ((i, w) ∷ m) (q, h) = ground (arith, All-remove k m h)

  pub All-update :
      (k : Str) (f : V → V) (m : List (Str × V))
      → ((j : Str) (v : V) → P (j, v) → P (j, f v))
      → All P m
      → All P (update k f m)
  unfolding update
  All-update k f [] step h = tt
  All-update k f ((i, w) ∷ m) step (q, h) = elim (Bool-cases (str_eq i k)) [
    | inl e ↦ rw e (step i w q, All-update k f m step h)
    | inr e ↦ rw e (q, All-update k f m step h)
  ]

  pub All-get : (k : Str) (m : List (Str × V)) (v : V) → All P m → get k m ≡ some v → P (k, v)
  unfolding get
  All-get k [] v h e = absurd (cc)
  All-get k ((i, w) ∷ m) v (q, h) e = elim (Bool-cases (str_eq i k)) [
    | inl t ↦
        let same : i ≡ k = (str_eq_iff i k).0 t in
        let found : w ≡ v = ground arith in subst (λ (p : Str × V). P p) (cc) q
    | inr t ↦ All-get k m v h (ground arith)
  ]
