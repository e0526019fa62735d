-- ===== src/Token/Json.antt =====
-- src/envoy/utils/json_struct.cc: reading the fields of a JSON object. Numbers are doubles and times
-- timestamps of other libraries: both are parameters.
use esp_v.Base.{
  ℕ, ◌^◌, Str, codes, lookup, if◌then◌else◌, Bool, true, false, ◌||◌, Option, none, some, List, ltb,
  ℤ, pos, negsuc, ◌≡◌,
}

-- `kind_case()` of a value: a number, a string, or another kind.
pub data Value (D : Type 0) : Type 0 where
  number_value : D → Value D
  string_value : Str → Value D
  other_value : Value D

abbrev pub Struct : Type 0 → Type 0
Struct D = List (Str × Value D)

-- Whether an integer fits in an `int`.
abbrev pub fits_int : ℤ → Bool
fits_int (pos n) = ltb n (2 ^ 31)
fits_int (negsuc n) = ltb n (2 ^ 31)

-- The doubles: comparison with `INT_MIN` and `INT_MAX`, `std::isnan`, and the cast to `int`, which
-- is defined for what is in range.
pub record Doubles (D : Type 0) : Type 0 where
  pub is_below_int : D → Bool
  pub is_above_int : D → Bool
  pub is_nan : D → Bool
  pub to_int : D → ℤ
  pub to_int-fits :
      (d : D)
      → is_below_int d ≡ false
      → is_above_int d ≡ false
      → is_nan d ≡ false
      → fits_int (to_int d) ≡ true

-- A value that is read, or a status.
pub data Read (A : Type 0) : Type 0 where
  found : A → Read A
  failed : ℕ → Str → Read A

abbrev not_found_code : ℕ
not_found_code = 5

abbrev invalid_argument_code : ℕ
invalid_argument_code = 3

abbrev pub invalid : {A : Type 0} → Str → Read A
invalid message = failed invalid_argument_code message

abbrev pub missing : {A : Type 0} → Read A
missing = failed not_found_code (codes "Field not found")

abbrev pub as_string : {D : Type 0} → Option (Value D) → Read Str
as_string none = missing
as_string (some (number_value d)) = invalid (codes "Field is not a string")
as_string (some (string_value text)) = found text
as_string (some other_value) = invalid (codes "Field is not a string")

-- `getString`
unfoldable pub get_string : {D : Type 0} → Struct D → Str → Read Str
get_string fields key = as_string (lookup key fields)

module _ {D : Type 0} (doubles : Doubles D) where
  -- The cast at the end of `getInteger`, behind its test.
  unfoldable pub as_int : D → Read ℤ
  as_int d =
      if doubles.is_below_int d || doubles.is_above_int d || doubles.is_nan d
      then invalid (codes "Field overflows an integer")
      else found (doubles.to_int d)

  abbrev pub as_integer : Option (Value D) → Read ℤ
  as_integer none = missing
  as_integer (some (number_value d)) = as_int d
  as_integer (some (string_value text)) = invalid (codes "Field is not a number")
  as_integer (some other_value) = invalid (codes "Field is not a number")

  -- `getInteger`
  unfoldable pub get_integer : Struct D → Str → Read ℤ
  get_integer fields key = as_integer (lookup key fields)

module _ {T : Type 0} (from_string : Str → Option T) where
  abbrev pub timestamp_or_failed : Option T → Read T
  timestamp_or_failed none = invalid (codes "Field is not a Timestamp")
  timestamp_or_failed (some time) = found time

  abbrev pub as_timestamp : Read Str → Read T
  as_timestamp (failed code message) = failed code message
  as_timestamp (found text) = timestamp_or_failed (from_string text)

  -- `getTimestamp`
  unfoldable pub get_timestamp : {D : Type 0} → Struct D → Str → Read T
  get_timestamp fields key = as_timestamp (get_string fields key)
