-- ===== src/Data/Reference.antt =====
-- class JsonRefrence: src/basic/data_manager_impl.cpp. A reference points to a value of a document,
-- or to `global_empty_json_ptr`, which `operator bool` tells from all else by its address. Results
-- of the form (r, b) are the result and what `*founded` or `*ok` is set to.
pub mod Path
pub mod Reads
mod Tests
use module_flow.Prelude.{
  ℕ, zero, suc, ◌+◌, ◌-◌, ◌*◌, ◌≡◌, Bool, true, false, Option, none, some, List, [], ◌∷◌, ℤ, pos,
  negsuc, ◌<◌, ◌==◌, nat_eq, if◌then◌else◌, int_eq, ltb, leb, ltb_ℤ, to_int32, ◌&&◌, ◌||◌, not,
  length, take, drop,
}
use module_flow.Data.Json.{
  Bytes, ValueType, int_value, uint_value, real_value, string_value, boolean_value, JsonLibrary,
}

-- std::string::find('.')
unfoldable pub find_dot : Bytes → Option ℕ
find_dot [] = none
find_dot (c ∷ s) =
    if c == b'.' then some 0 else elim (find_dot s) [ none ↦ none | some i ↦ some (suc i) ]

-- atoi of the C library: white space, a sign, and digits up to the first other character. What it
-- does with a number that no int can hold is undefined; here it is exact.
unfoldable pub digits_value : ℕ → Bytes → ℕ
digits_value acc [] = acc
digits_value acc (c ∷ s) =
    let rest = digits_value (acc * 10 + (c - b'0')) s in
    if leb b'0' c && leb c b'9' then rest else acc

unfoldable pub negate : ℕ → ℤ
negate zero = pos 0
negate (suc n) = negsuc n

unfoldable pub signed_value : Bytes → ℤ
unfolding digits_value negate
signed_value [] = pos 0
signed_value (c ∷ s) =
    if c == b'-'
    then negate (digits_value 0 s)
    else if c == b'+'
    then pos (digits_value 0 s)
    else pos (digits_value 0 (c ∷ s))

unfoldable pub atoi : Bytes → ℤ
unfolding signed_value
atoi [] = pos 0
atoi (c ∷ s) =
    let rest = atoi s in if c == b' ' || (leb 9 c && leb c 13) then rest else signed_value (c ∷ s)

-- The test of `at` for a key that is an index.
unfoldable pub index_key : Bytes → Option ℤ
unfolding atoi
index_key [] = none
index_key (c ∷ []) = none
index_key (c ∷ d ∷ s) = if c == b'#' then some (atoi (d ∷ s)) else none

module _ (j : JsonLibrary) where
  open j use {Value, Double}

  pub data JsonRef : Type 0 where
    global_empty : JsonRef
    to : Value → JsonRef

  unfoldable pub value : JsonRef → Value
  value global_empty = j.null_value
  value (to v) = v

  -- operator bool
  unfoldable pub to_bool_ref : JsonRef → Bool
  to_bool_ref global_empty = false
  to_bool_ref (to v) = true

  unfoldable pub size_ref : JsonRef → ℕ
  unfolding value
  size_ref r = j.size (value r)

  unfoldable pub array_size : JsonRef → ℤ
  unfolding value to_int32
  array_size r = if j.is_array (value r) then to_int32 (j.size (value r)) else pos 0

  unfoldable pub object_size : JsonRef → ℤ
  unfolding value to_int32
  object_size r = if j.is_object (value r) then to_int32 (j.size (value r)) else negsuc 0

  unfoldable pub object_keys : JsonRef → List Bytes
  unfolding value
  object_keys r = if j.is_object (value r) then j.member_names (value r) else []

  unfoldable pub has_index : JsonRef → ℤ → Bool
  unfolding array_size
  has_index r i = ltb_ℤ i (array_size r) && not (ltb_ℤ i (pos 0))

  unfoldable pub has_key : JsonRef → Bytes → Bool
  unfolding value
  has_key r k = j.is_object (value r) && j.is_member (value r) k

  -- The index of an int that is not negative.
  abbrev pub to_index : ℤ → ℕ
  to_index (pos n) = n
  to_index (negsuc n) = 0

  -- at(int, founded)
  unfoldable pub at : JsonRef → ℤ → JsonRef × Bool
  unfolding has_index value
  at r i =
      if not (has_index r i)
      then (global_empty, false)
      else (to (j.at_index (value r) (to_index i)), true)

  abbrev pub at_member : JsonRef → Bytes → JsonRef × Bool
  at_member r k =
      if not (has_key r k) then (global_empty, false) else (to (j.at_key (value r) k), true)

  -- at(const std::string&, use_index, founded)
  unfoldable pub at_key : JsonRef → Bytes → Bool → JsonRef × Bool
  unfolding at has_key value index_key
  at_key r k use_index = elim (index_key k) [
    | none ↦ at_member r k
    | some i ↦ if use_index then at r i else at_member r k
  ]

  -- get(path, founded), with fuel for its call of itself on what follows the first dot. The code keeps
  -- the place of the dot in an int, so that this is for paths of fewer than 2^31 characters.
  unfoldable pub get_fuel : ℕ → JsonRef → Bytes → Option (JsonRef × Bool)
  unfolding value find_dot at_key
  get_fuel zero r path = none
  get_fuel (suc fuel) r path =
      if j.is_null (value r) then some (global_empty, false) else elim (find_dot path) [
        | none ↦ some (at_key r path true)
        | some len ↦
            let rest = get_fuel fuel (at_key r (take len path) true).0 (drop (suc len) path) in
            if j.is_object (value r) then rest else some (global_empty, false)
      ]

  -- A path has fewer dots than characters.
  unfoldable pub get : JsonRef → Bytes → Option (JsonRef × Bool)
  unfolding get_fuel
  get r path = get_fuel (suc (length path)) r path

  -- The macro _F_to.
  unfoldable pub convert : {A : Type 0} → JsonRef → ValueType → (Value → A) → A → A × Bool
  unfolding value
  convert r type read d =
      if not (j.is_null (value r)) && j.is_convertible_to (value r) type
      then (read (value r), true)
      else (d, false)

  unfoldable pub to_bool : JsonRef → Bool → Bool × Bool
  unfolding convert
  to_bool r d = convert r boolean_value j.as_bool d

  unfoldable pub to_int : JsonRef → ℤ → ℤ × Bool
  unfolding convert
  to_int r d = convert r int_value j.as_int d

  unfoldable pub to_uint : JsonRef → ℕ → ℕ × Bool
  unfolding convert
  to_uint r d = convert r uint_value j.as_uint d

  unfoldable pub to_double : JsonRef → Double → Double × Bool
  unfolding convert
  to_double r d = convert r real_value j.as_double d

  unfoldable pub to_string : JsonRef → Bytes → Bytes × Bool
  unfolding convert
  to_string r d = convert r string_value j.as_string d
