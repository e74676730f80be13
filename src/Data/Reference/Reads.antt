-- ===== src/Data/Reference/Reads.antt =====
-- The operators of JsonRefrence, and toT.
use module_flow.Prelude.{
  ℕ, ◌-◌, ◌%◌, ◌^◌, ltb, if◌then◌else◌, negsuc, Bool, true, false, Option, none, some, [], ℤ, pos,
}
use module_flow.Data.Json.{Bytes, int_value, JsonLibrary}
use module_flow.Data.Reference.{
  JsonRef, value, at, get, convert, to_bool, to_int, to_uint, to_double, to_string,
}

-- The low 16 bits of an int as a short, and a 64-bit number as an unsigned long.
unfoldable pub to_short : ℤ → ℤ
to_short (pos n) =
    let low = n % 2 ^ 16 in if ltb low (2 ^ 15) then pos low else negsuc (2 ^ 16 - 1 - low)
to_short (negsuc n) =
    let low = n % 2 ^ 16 in if ltb low (2 ^ 15) then negsuc low else pos (2 ^ 16 - 1 - low)

unfoldable pub to_ulong : ℤ → ℕ
to_ulong (pos n) = n % 2 ^ 64
to_ulong (negsuc n) = 2 ^ 64 - 1 - n % 2 ^ 64

module _ (j : JsonLibrary) where
  open j use {Value, Double}

  -- operator[](int) and operator[](const std::string&)
  unfoldable pub index_at : JsonRef j → ℤ → JsonRef j
  index_at r i = (at j r i).0

  unfoldable pub index_get : JsonRef j → Bytes → Option (JsonRef j)
  index_get r path = elim (get j r path) [ none ↦ none | some p ↦ some p.0 ]

  -- operator()(int) and operator()(const std::string&)
  unfoldable pub double_at : JsonRef j → ℤ → Double
  double_at r i = (to_double j (at j r i).0 j.zero_double).0

  unfoldable pub double_get : JsonRef j → Bytes → Option Double
  double_get r path = elim (get j r path) [
    | none ↦ none
    | some p ↦ some (to_double j p.0 j.zero_double).0
  ]

  -- toT<bool>, toT<int>, toT<unsigned int>, toT<double>, toT<std::string>, toT<Json::Value>
  unfoldable pub bool_of : JsonRef j → Bool × Bool
  bool_of r = to_bool j r false

  unfoldable pub int_of : JsonRef j → ℤ × Bool
  int_of r = to_int j r (pos 0)

  unfoldable pub uint_of : JsonRef j → ℕ × Bool
  uint_of r = to_uint j r 0

  unfoldable pub double_of : JsonRef j → Double × Bool
  double_of r = to_double j r j.zero_double

  unfoldable pub string_of : JsonRef j → Bytes × Bool
  string_of r = to_string j r []

  unfoldable pub value_of : JsonRef j → Value × Bool
  value_of r = (value j r, true)

  -- toT<unsigned short>, toT<long>, toT<long long> and toT<unsigned long long>
  unfoldable pub ushort_of : JsonRef j → ℕ × Bool
  ushort_of r = let (n, ok) = to_uint j r 0 in (n % 2 ^ 16, ok)

  unfoldable pub long_of : JsonRef j → ℤ × Bool
  long_of r = convert j r int_value j.as_largest_int (pos 0)

  unfoldable pub ulong_long_of : JsonRef j → ℕ × Bool
  ulong_long_of r = convert j r int_value j.as_largest_uint 0

  -- toT<short>, toT<float>, for the conversion `narrow` of a double, and toT<unsigned long>
  unfoldable pub short_of : JsonRef j → ℤ × Bool
  unfolding to_short
  short_of r = let (n, ok) = to_int j r (pos 0) in (to_short n, ok)

  unfoldable pub float_of : {Float : Type 0} → (Double → Float) → JsonRef j → Float × Bool
  float_of narrow r = let (d, ok) = to_double j r j.zero_double in (narrow d, ok)

  unfoldable pub ulong_of : JsonRef j → ℕ × Bool
  unfolding to_ulong
  ulong_of r = let (n, ok) = convert j r int_value j.as_largest_int (pos 0) in (to_ulong n, ok)
