-- ===== src/SebFile/Json.antt =====
-- The SEB-JSON form of settings, from which the Config Key is hashed.
use Prim.Native.Nat.{Ordering}
use riscv_exam_computer.Base.{
  ℕ, ◌/◌, ◌%◌, ◌^◌, Bool, true, false, not, Option, none, some, List, [], ◌∷◌, ◌++◌, ltb, ◌==◌,
  if◌then◌else◌, Str, txt, str_eq, cmp,
}
use riscv_exam_computer.Base.Decimal.{decimal, decimal_int}
use riscv_exam_computer.SebFile.Values.{Value, Values, Entries, Ext}
use riscv_exam_computer.SebFile.Hex.{hex_digit}

-- `Dictionary::insert`: a key that is there keeps its place.
unfoldable pub put : Str → Value → Entries → Entries
unfolding str_eq
put k v Entries.end = Entries.entry k v Entries.end
put k v (Entries.entry j w d) =
    if str_eq j k then Entries.entry j v d else Entries.entry j w (put k v d)

-- `Dictionary::remove`.
unfoldable pub without : Str → Entries → Entries
unfolding str_eq
without k Entries.end = Entries.end
without k (Entries.entry j w d) =
    if str_eq j k then without k d else Entries.entry j w (without k d)

abbrev pub is_end : Entries → Bool
is_end Entries.end = true
is_end (Entries.entry k v d) = false

unfoldable pub is_empty_dict : Value → Bool
is_empty_dict (Value.dictionary d) = is_end d
is_empty_dict _ = false

-- One character of `write_str`.
unfoldable pub escape_char : ℕ → Str
unfolding hex_digit
escape_char c =
    if c == b'"'
    then b'\\' ∷ b'"' ∷ []
    else if c == 10
    then b'\\' ∷ b'n' ∷ []
    else if c == 13
    then b'\\' ∷ b'r' ∷ []
    else if c == 9
    then b'\\' ∷ b't' ∷ []
    else if ltb c 32
    then b'\\' ∷ b'u' ∷ b'0' ∷ b'0' ∷ hex_digit (c / 16) ∷ hex_digit (c % 16) ∷ []
    else c ∷ []

unfoldable pub escape : Str → Str
unfolding escape_char
escape [] = []
escape (c ∷ s) = escape_char c ++ escape s

unfoldable pub write_str : Str → Str
unfolding escape
write_str s = b'"' ∷ escape s ++ b'"' ∷ []

abbrev pub key_order_of : Ordering → Ordering → Ordering
key_order_of Ordering.lt o = Ordering.lt
key_order_of Ordering.eq o = o
key_order_of Ordering.gt o = Ordering.gt

abbrev pub is_gt : Ordering → Bool
is_gt Ordering.lt = false
is_gt Ordering.eq = false
is_gt Ordering.gt = true

-- `f64::is_finite` on the bit pattern.
abbrev is_finite_f64 : ℕ → Bool
is_finite_f64 b = not (b / 2 ^ 52 % 2048 == 2047)

-- `strip_suffix('Z')`.
abbrev strip_z : Str → Option Str
strip_z [] = none
strip_z (c ∷ []) = if c == b'Z' then some [] else none
strip_z (c ∷ d ∷ s) = elim (strip_z (d ∷ s)) [ none ↦ none | some t ↦ some (c ∷ t) ]

module _ (ext : Ext) where
  open ext use {base64, date_xml, format_f64, to_lowercase}

  unfoldable pub key_order : Str → Str → Ordering
  key_order a b = key_order_of (cmp (to_lowercase a) (to_lowercase b)) (cmp b a)

  unfoldable pub format_real : ℕ → Str
  format_real r = if is_finite_f64 r then format_f64 r else txt "0"

  unfoldable pub iso8601 : ℕ → Str
  iso8601 d = elim (strip_z (date_xml d)) [ none ↦ date_xml d | some s ↦ s ++ txt "+00:00" ]

  -- `sort_by` is stable: an entry goes behind those that it is not before.
  unfoldable pub insert_key : Str × Str → List (Str × Str) → List (Str × Str)
  unfolding key_order
  insert_key e [] = e ∷ []
  insert_key (k, v) ((j, w) ∷ m) =
      if is_gt (key_order j k) then (k, v) ∷ (j, w) ∷ m else (j, w) ∷ insert_key (k, v) m

  unfoldable pub sort_keys : List (Str × Str) → List (Str × Str) → List (Str × Str)
  unfolding insert_key
  sort_keys done [] = done
  sort_keys done (e ∷ m) = sort_keys (insert_key e done) m

  -- The members with their values written, in key order, between braces.
  unfoldable pub write_members : List (Str × Str) → Str
  unfolding write_str
  write_members [] = []
  write_members ((k, v) ∷ []) = write_str k ++ b':' ∷ v
  write_members ((k, v) ∷ (j, w) ∷ m) =
      (write_str k ++ b':' ∷ v) ++ b',' ∷ write_members ((j, w) ∷ m)

  unfoldable pub braces : List (Str × Str) → Str
  unfolding sort_keys write_members
  braces m = b'{' ∷ write_members (sort_keys [] m) ++ b'}' ∷ []

  abbrev brackets : List Str → Str
  brackets [] = []
  brackets (s ∷ []) = s
  brackets (s ∷ t ∷ ss) = s ++ b',' ∷ brackets (t ∷ ss)

  unfoldable mutual
    unfolding is_empty_dict write_str format_real iso8601 braces

    -- `write_dict` writes the members after sorting; here each is written first and then sorted.
    pub write_value : Value → Str
    write_value (Value.dictionary d) = braces (entry_texts d)
    write_value (Value.array a) = b'[' ∷ brackets (item_texts a) ++ b']' ∷ []
    write_value (Value.boolean true) = txt "true"
    write_value (Value.boolean false) = txt "false"
    write_value (Value.integer i) = decimal_int i
    write_value (Value.real r) = format_real r
    write_value (Value.string s) = write_str s
    write_value (Value.bytes b) = write_str (base64 b)
    write_value (Value.date d) = write_str (iso8601 d)
    write_value (Value.uid u) = decimal u

    -- Without the empty dictionaries.
    pub item_texts : Values → List Str
    item_texts Values.nil = []
    item_texts (Values.cons v vs) =
        let rest = item_texts vs in if is_empty_dict v then rest else write_value v ∷ rest

    pub entry_texts : Entries → List (Str × Str)
    entry_texts Entries.end = []
    entry_texts (Entries.entry k v d) =
        let rest = entry_texts d in if is_empty_dict v then rest else (k, write_value v) ∷ rest

  unfoldable pub write_dict : Entries → Str
  unfolding write_value braces
  write_dict d = braces (entry_texts d)

  unfoldable pub seb_json : Entries → Str
  unfolding write_dict without
  seb_json settings = write_dict (without (txt "originatorVersion") settings)
