-- ===== src/Base/OrderedMap.antt =====
-- `BTreeMap<String, V>` as its list of entries in key order.
pub mod Laws
pub mod Sorted
use Prim.Native.Nat.{ℕ, zero, suc, Ordering}
use mathlib.Core.Path.{◌≡◌, refl}
use mathlib.Core.Bool.{Bool, true, false, ◌&&◌}
use mathlib.Core.Option.{Option, none, some}
use mathlib.Core.List.{List, [], ◌∷◌, ◌++◌, map}
use riscv_exam_computer.Base.Tests.{if◌then◌else◌, is_some}
use riscv_exam_computer.Base.Text.{Str, cmp, str_eq}

module _ {ℓ} {V : Type ℓ} where
  unfoldable pub get : Str → List (Str × V) → Option V
  unfolding str_eq
  get k [] = none
  get k ((j, v) ∷ m) = if str_eq j k then some v else get k m

  unfoldable pub contains_key : Str → List (Str × V) → Bool
  unfolding get
  contains_key k m = is_some (get k m)

  -- At the key's place, or instead of the entry that is there.
  unfoldable pub insert : Str → V → List (Str × V) → List (Str × V)
  insert k v [] = (k, v) ∷ []
  insert k v ((j, w) ∷ m) = elim (cmp k j) [
    | Ordering.lt ↦ (k, v) ∷ (j, w) ∷ m
    | Ordering.eq ↦ (k, v) ∷ m
    | Ordering.gt ↦ (j, w) ∷ insert k v m
  ]

  unfoldable pub remove : Str → List (Str × V) → List (Str × V)
  unfolding str_eq
  remove k [] = []
  remove k ((j, v) ∷ m) = if str_eq j k then remove k m else (j, v) ∷ remove k m

  -- A write through `get_mut`.
  unfoldable pub update : Str → (V → V) → List (Str × V) → List (Str × V)
  unfolding str_eq
  update k f [] = []
  update k f ((j, v) ∷ m) = if str_eq j k then (j, f v) ∷ update k f m else (j, v) ∷ update k f m

  abbrev pub keys : List (Str × V) → List Str
  keys [] = []
  keys ((k, v) ∷ m) = k ∷ keys m

  abbrev pub values : List (Str × V) → List V
  values [] = []
  values ((k, v) ∷ m) = v ∷ values m
