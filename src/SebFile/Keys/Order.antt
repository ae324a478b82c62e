-- ===== src/SebFile/Keys/Order.antt =====
-- The order in which a dictionary keeps its entries, and the Config Key, which sorts them.
use Prim.Native.Nat.{Ordering}
use riscv_exam_computer.Base.{
  ◌≡◌, refl, sym, ap, ◌∙◌, subst, true, false, List, [], ◌∷◌, arith, Bool-cases, inl, inr, Str, txt,
  str_eq, str_eq_refl, cmp_iff,
}
use riscv_exam_computer.Base.OrderedMap.Sorted.{cmp_flip, cmp_flip_lt, cmp_trans}
use riscv_exam_computer.SebFile.Values.{Value, Values, Entries, Ext}
use riscv_exam_computer.SebFile.Keys.{config_key}
use riscv_exam_computer.SebFile.Json.{
  put, without, is_end, is_empty_dict, is_gt, key_order, insert_key, sort_keys, braces, write_value,
  item_texts, entry_texts, write_dict, seb_json,
}

-- Two members that trade places, deeper down and in sequence.
data Reordered : List (Str × Str) → List (Str × Str) → Type 0 where
  same : (m : List (Str × Str)) → Reordered m m
  keep : (e : Str × Str) (m n : List (Str × Str)) → Reordered m n → Reordered (e ∷ m) (e ∷ n)
  trade :
      (j k : Str) (v w : Str) (m : List (Str × Str))
      → str_eq j k ≡ false
      → Reordered ((j, v) ∷ (k, w) ∷ m) ((k, w) ∷ (j, v) ∷ m)
  follow : (l m n : List (Str × Str)) → Reordered l m → Reordered m n → Reordered l n

-- Values, items and dictionaries that are the same but for the order of the entries of
-- dictionaries, at any depth.
mutual
  pub data AlikeValue : Value → Value → Type 0 where
    equal : (v : Value) → AlikeValue v v
    dictionary : (d e : Entries) → Alike d e → AlikeValue (Value.dictionary d) (Value.dictionary e)
    array : (a b : Values) → AlikeItems a b → AlikeValue (Value.array a) (Value.array b)

  pub data AlikeItems : Values → Values → Type 0 where
    nil : AlikeItems Values.nil Values.nil
    cons :
        (v w : Value) (a b : Values)
        → AlikeValue v w
        → AlikeItems a b
        → AlikeItems (Values.cons v a) (Values.cons w b)

  pub data Alike : Entries → Entries → Type 0 where
    same : (d : Entries) → Alike d d
    keep :
        (k : Str) (v w : Value) (d e : Entries)
        → AlikeValue v w
        → Alike d e
        → Alike (Entries.entry k v d) (Entries.entry k w e)
    trade :
        (j k : Str) (v w : Value) (d : Entries)
        → str_eq j k ≡ false
        → Alike (Entries.entry j v (Entries.entry k w d)) (Entries.entry k w (Entries.entry j v d))
    follow : (c d e : Entries) → Alike c d → Alike d e → Alike c e

module _ (ext : Ext) where
  open ext use {to_lowercase}

  key_order_flip : (j k : Str) → key_order ext j k ≡ Ordering.gt → key_order ext k j ≡ Ordering.lt
  unfolding key_order
  key_order_flip j k h =
      let a = cmp_flip (to_lowercase j) (to_lowercase k) in
      let b = cmp_flip k j in
      let c = cmp_iff (to_lowercase j) (to_lowercase k) in
      let d = cmp_iff (to_lowercase k) (to_lowercase j) in ground arith

  key_order_trans :
      (i j k : Str)
      → key_order ext i j ≡ Ordering.lt
      → key_order ext j k ≡ Ordering.lt
      → key_order ext i k ≡ Ordering.lt
  unfolding key_order
  key_order_trans i j k h g =
      let a = cmp_trans (to_lowercase i) (to_lowercase j) (to_lowercase k) in
      let c = cmp_iff (to_lowercase i) (to_lowercase j) in
      let d = cmp_iff (to_lowercase j) (to_lowercase k) in
      let e = cmp_iff (to_lowercase i) (to_lowercase k) in let b = cmp_trans k j i in ground arith

  key_order_same : (j k : Str) → key_order ext j k ≡ Ordering.eq → j ≡ k
  unfolding key_order
  key_order_same j k h = let c = cmp_iff k j in ground arith

  key_order_lt_flip :
      (j k : Str) → key_order ext j k ≡ Ordering.lt → key_order ext k j ≡ Ordering.gt
  unfolding key_order
  key_order_lt_flip j k h =
      let a = cmp_flip_lt (to_lowercase j) (to_lowercase k) in
      let b = cmp_flip_lt k j in
      let c = cmp_iff (to_lowercase j) (to_lowercase k) in
      let d = cmp_iff (to_lowercase k) (to_lowercase j) in ground arith

  key_order_differs : (j k : Str) → str_eq j k ≡ false → ¬ (key_order ext j k ≡ Ordering.eq)
  key_order_differs j k d h =
      let s : str_eq j k ≡ true =
        subst (λ x. str_eq j x ≡ true) (key_order_same j k h) (str_eq_refl j) in
      cc

  key_order_asym :
      (j k : Str) → is_gt (key_order ext j k) ≡ true → is_gt (key_order ext k j) ≡ false
  key_order_asym j k h = let f = key_order_flip j k in ground arith

  key_order_total :
      (j k : Str)
      → str_eq j k ≡ false
      → is_gt (key_order ext j k) ≡ false
      → is_gt (key_order ext k j) ≡ true
  key_order_total j k d h =
      let f = key_order_flip j k in
      let g = key_order_lt_flip j k in let s = key_order_differs j k d in ground arith

  key_order_between :
      (i j k : Str)
      → is_gt (key_order ext i k) ≡ true
      → is_gt (key_order ext i j) ≡ false
      → is_gt (key_order ext j k) ≡ true
  key_order_between i j k h n =
      let f = key_order_flip i k in
      let s = key_order_same i j in
      let g = key_order_lt_flip k j in let t = key_order_trans k i j in ground arith

  insert_key-exchange :
      (j k : Str) (v w : Str) (m : List (Str × Str))
      → str_eq j k ≡ false
      → insert_key ext (j, v) (insert_key ext (k, w) m)
        ≡ insert_key ext (k, w) (insert_key ext (j, v) m)
  unfolding insert_key
  insert_key-exchange j k v w [] d =
      let a = key_order_asym j k in let b = key_order_total j k d in ground arith
  insert_key-exchange j k v w ((i, u) ∷ m) d =
      let a = key_order_asym j k in
      let b = key_order_total j k d in
      let c = key_order_between i j k in
      let e = key_order_between i k j in
      let f = key_order_asym k j in let g = insert_key-exchange j k v w m d in ground arith

  sort_keys-Reordered :
      (m n : List (Str × Str)) (done : List (Str × Str))
      → Reordered m n
      → sort_keys ext done m ≡ sort_keys ext done n
  unfolding sort_keys
  sort_keys-Reordered _ _ done (same m) = refl
  sort_keys-Reordered _ _ done (keep e m n r) = sort_keys-Reordered m n (insert_key ext e done) r
  sort_keys-Reordered _ _ done (trade j k v w m d) =
      ap (λ l. sort_keys ext l m) (sym (insert_key-exchange j k v w done d))
  sort_keys-Reordered _ _ done (follow l m n r s) =
      sort_keys-Reordered l m done r ∙ sort_keys-Reordered m n done s

  braces-Reordered : (m n : List (Str × Str)) → Reordered m n → braces ext m ≡ braces ext n
  unfolding braces
  braces-Reordered m n r = rw (braces, sort_keys-Reordered m n [] r) refl

  is_end-Alike : (d e : Entries) → Alike d e → is_end d ≡ is_end e
  is_end-Alike _ _ (same d) = refl
  is_end-Alike _ _ (keep k v w d e p a) = refl
  is_end-Alike _ _ (trade j k v w d n) = refl
  is_end-Alike _ _ (follow c d e a b) = is_end-Alike c d a ∙ is_end-Alike d e b

  is_empty_dict-Alike : (v w : Value) → AlikeValue v w → is_empty_dict v ≡ is_empty_dict w
  unfolding is_empty_dict
  is_empty_dict-Alike _ _ (equal v) = refl
  is_empty_dict-Alike _ _ (dictionary d e a) = is_end-Alike d e a
  is_empty_dict-Alike _ _ (array a b p) = refl

  mutual
    unfolding entry_texts item_texts write_value

    write_value-Alike : (v w : Value) → AlikeValue v w → write_value ext v ≡ write_value ext w
    write_value-Alike _ _ (equal v) = refl
    write_value-Alike _ _ (dictionary d e a) =
        braces-Reordered (entry_texts ext d) (entry_texts ext e) (entry_texts-Alike d e a)
    write_value-Alike _ _ (array a b p) = rw (item_texts-Alike a b p) refl

    item_texts-Alike : (a b : Values) → AlikeItems a b → item_texts ext a ≡ item_texts ext b
    item_texts-Alike _ _ nil = refl
    item_texts-Alike _ _ (cons v w a b p q) =
        rw (is_empty_dict-Alike v w p, write_value-Alike v w p, item_texts-Alike a b q) refl

    entry_texts-Alike :
        (d e : Entries) → Alike d e → Reordered (entry_texts ext d) (entry_texts ext e)
    entry_texts-Alike _ _ (same d) = same (entry_texts ext d)
    entry_texts-Alike _ _ (keep k v w d e p a) =
        let r = entry_texts-Alike d e a in
        rw (is_empty_dict-Alike v w p, write_value-Alike v w p)
          (elim (Bool-cases (is_empty_dict w)) [
            | inl h ↦ rw h r
            | inr h ↦ rw h (keep (k, write_value ext w) (entry_texts ext d) (entry_texts ext e) r)
          ])
    entry_texts-Alike _ _ (trade j k v w d n) = elim (Bool-cases (is_empty_dict v)) [
      | inl h ↦ rw h (same (entry_texts ext (Entries.entry k w d)))
      | inr h ↦ elim (Bool-cases (is_empty_dict w)) [
        | inl g ↦ rw (h, g) (same ((j, write_value ext v) ∷ entry_texts ext d))
        | inr g ↦
            rw (h, g) (trade j k (write_value ext v) (write_value ext w) (entry_texts ext d) n)
      ]
    ]
    entry_texts-Alike _ _ (follow c d e a b) =
        follow (entry_texts ext c) (entry_texts ext d) (entry_texts ext e) (entry_texts-Alike c d a)
          (entry_texts-Alike d e b)

without-Alike : (x : Str) (d e : Entries) → Alike d e → Alike (without x d) (without x e)
unfolding without
without-Alike x _ _ (same d) = same (without x d)
without-Alike x _ _ (keep j v w d e p a) =
    let r = without-Alike x d e a in
    elim (Bool-cases (str_eq j x)) [
      | inl h ↦ rw h r
      | inr h ↦ rw h (keep j v w (without x d) (without x e) p r)
    ]
without-Alike x _ _ (trade j k v w d n) = elim (Bool-cases (str_eq j x)) [
  | inl h ↦ rw h (same (without x (Entries.entry k w d)))
  | inr h ↦ elim (Bool-cases (str_eq k x)) [
    | inl g ↦ rw (h, g) (same (Entries.entry j v (without x d)))
    | inr g ↦ rw (h, g) (trade j k v w (without x d) n)
  ]
]
without-Alike x _ _ (follow c d e a b) =
    follow (without x c) (without x d) (without x e) (without-Alike x c d a) (without-Alike x d e b)

without-put : (k : Str) (v : Value) (d : Entries) → without k (put k v d) ≡ without k d
unfolding without put
without-put k v Entries.end = rw (str_eq_refl k) refl
without-put k v (Entries.entry j w d) =
    let r = without-put k v d in
    elim (Bool-cases (str_eq j k)) [ inl h ↦ rw (h, h) refl | inr h ↦ rw (h, h, r) refl ]

-- The Config Key of settings is not changed by another order of the entries, in the settings or in
-- any dictionary within them, nor by an entry `originatorVersion` that is put in with any value.
pub config_key-Alike :
    (ext : Ext) (d e : Entries) (version : Value)
    → Alike d e
    → config_key ext (put (txt "originatorVersion") version d) ≡ config_key ext e
unfolding config_key seb_json write_dict
config_key-Alike ext d e version a =
    let k = txt "originatorVersion" in
    let t =
      braces-Reordered ext (entry_texts ext (without k d)) (entry_texts ext (without k e))
        (entry_texts-Alike ext (without k d) (without k e) (without-Alike k d e a)) in
    rw (config_key, seb_json, write_dict, without-put k version d, t) refl
