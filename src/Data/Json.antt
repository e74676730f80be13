-- ===== src/Data/Json.antt =====
-- What the program calls of jsoncpp, a library that it carries and does not implement. Texts are
-- lists of bytes; numbers of type double are a type of the library.
use module_flow.Prelude.{
  ℕ, ◌≡◌, Bool, true, false, List, ℤ, ◌<◌, ◌==◌, nat_eq, if◌then◌else◌, int_eq, list_eq, ◌⊎◌, ◌≤◌,
  ◌+◌, ◌||◌, ◌&&◌,
}

abbrev pub Bytes : Type 0
Bytes = List ℕ

-- Json::ValueType, as far as the program names it.
pub data ValueType : Type 0 where
  int_value uint_value real_value string_value boolean_value : ValueType

pub record JsonLibrary : Type 1 where
  pub Value : Type 0
  pub Double : Type 0
  -- Json::Value()
  pub null_value : Value
  pub is_null : Value → Bool
  pub is_array : Value → Bool
  pub is_object : Value → Bool
  pub size : Value → ℕ
  pub is_member : Value → Bytes → Bool
  pub member_names : Value → List Bytes
  -- operator[], for an index below the size and for a member
  pub at_index : Value → ℕ → Value
  pub at_key : Value → Bytes → Value
  pub is_convertible_to : Value → ValueType → Bool
  pub as_bool : Value → Bool
  pub as_int : Value → ℤ
  pub as_uint : Value → ℕ
  pub as_double : Value → Double
  pub as_string : Value → Bytes
  pub as_largest_int : Value → ℤ
  pub as_largest_uint : Value → ℕ
  -- Json::Value(int), Json::Value(double), and writes to a value
  pub of_int : ℤ → Value
  pub of_double : Double → Value
  pub resize : Value → ℕ → Value
  pub set_index : Value → ℕ → Value → Value
  pub set_key : Value → Bytes → Value → Value
  -- The double 0.0
  pub zero_double : Double
  -- Json::Value(Json::arrayValue)
  pub empty_array : Value

-- What jsoncpp documents of arrays, numbers and null values, as far as a theorem needs it.
pub record JsonLaws (j : JsonLibrary) : Type 0 where
  pub null_is_null : j.is_null j.null_value ≡ true
  pub null_no_object : j.is_object j.null_value ≡ false
  pub null_no_array : j.is_array j.null_value ≡ false
  -- `resize` makes an array of that size of a null value or of an empty array.
  pub resize_array : (n : ℕ) → j.is_array (j.resize j.null_value n) ≡ true
  pub resize_size : (n : ℕ) → j.size (j.resize j.null_value n) ≡ n
  pub empty_resize_array : (n : ℕ) → j.is_array (j.resize j.empty_array n) ≡ true
  pub empty_resize_size : (n : ℕ) → j.size (j.resize j.empty_array n) ≡ n
  -- A write below the size of an array changes that element and nothing else.
  pub set_array :
      (v x : j.Value) (i : ℕ)
      → j.is_array v ≡ true
      → i < j.size v
      → j.is_array (j.set_index v i x) ≡ true
  pub set_size :
      (v x : j.Value) (i : ℕ)
      → j.is_array v ≡ true
      → i < j.size v
      → j.size (j.set_index v i x) ≡ j.size v
  pub set_at :
      (v x : j.Value) (i k : ℕ)
      → j.is_array v ≡ true
      → i < j.size v
      → j.at_index (j.set_index v i x) k ≡ (if i == k then x else j.at_index v k)
  -- A write to a member of an object, or of a null value, which it makes an object, changes that
  -- member and nothing else.
  pub null_size : j.size j.null_value ≡ 0
  pub key_object :
      (v x : j.Value) (k : Bytes)
      → (j.is_null v ≡ true) ⊎ (j.is_object v ≡ true)
      → j.is_object (j.set_key v k x) ≡ true
  pub key_size :
      (v x : j.Value) (k : Bytes)
      → (j.is_null v ≡ true) ⊎ (j.is_object v ≡ true)
      → j.size (j.set_key v k x) ≤ j.size v + 1
  pub key_member :
      (v x : j.Value) (k l : Bytes)
      → (j.is_null v ≡ true) ⊎ (j.is_object v ≡ true)
      → j.is_member (j.set_key v k x) l ≡ (k == l || (j.is_object v && j.is_member v l))
  pub key_at :
      (v x : j.Value) (k l : Bytes)
      → (j.is_null v ≡ true) ⊎ (j.is_object v ≡ true)
      → j.at_key (j.set_key v k x) l ≡ (if k == l then x else j.at_key v l)
  -- A double is a number, and reads as itself.
  pub double_no_null : (d : j.Double) → j.is_null (j.of_double d) ≡ false
  pub double_converts : (d : j.Double) → j.is_convertible_to (j.of_double d) real_value ≡ true
  pub double_reads : (d : j.Double) → j.as_double (j.of_double d) ≡ d
  -- An int is a number, and reads as itself.
  pub int_no_null : (n : ℤ) → j.is_null (j.of_int n) ≡ false
  pub int_no_object : (n : ℤ) → j.is_object (j.of_int n) ≡ false
  pub int_converts : (n : ℤ) → j.is_convertible_to (j.of_int n) int_value ≡ true
  pub int_reads : (n : ℤ) → j.as_int (j.of_int n) ≡ n
