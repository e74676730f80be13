-- ===== src/Data/Store.antt =====
-- Namespace data of src/basic/data_manager_impl.cpp: the global data manager, and `get`, which looks
-- an object up by its path. The objects are addresses; of each the model keeps whether it is a
-- StandardT<DataList>, a StandardT<DataDict>, or something else, as `dynamic_cast` tells.
pub mod Elements
pub mod Dots
pub mod Reach
pub mod Quick
mod Tests
use module_flow.Prelude.{
  ℕ, zero, suc, ◌+◌, ◌-◌, ◌≡◌, Bool, true, false, Option, none, some, List, [], ◌∷◌, ◌<◌, ◌==◌,
  nat_eq, list_eq, if◌then◌else◌, length, take, drop, ℤ, pos, negsuc, leb, ◌&&◌, ◌||◌, get_elem?,
  ltb_ℤ,
}
use module_flow.Container.HashMap.{HashMap, find, valueref}
use module_flow.Data.Json.{Bytes}
use module_flow.Data.Reference.{signed_value}
use module_flow.Object.Heap.{Addr, null}

-- DataList and DataDict of include/basic/data_manager_def.h hold pointers to data objects.
pub data Content : Type 0 where
  other : Content
  data_list : List Addr → Content
  data_dict : HashMap Bytes Addr → Content

pub record DataStore : Type 0 where
  pub entries : HashMap Bytes Addr
  pub content : Addr → Content

-- A pointer, or the exception that std::stoi throws.
pub data Lookup : Type 0 where
  pointer : Addr → Lookup
  invalid_argument : Lookup

-- std::string::rfind(".")
unfoldable pub rfind_dot : Bytes → Option ℕ
rfind_dot [] = none
rfind_dot (c ∷ s) = elim (rfind_dot s) [
  | some i ↦ some (suc i)
  | none ↦ if c == b'.' then some 0 else none
]

abbrev pub is_digit : ℕ → Bool
is_digit c = leb b'0' c && leb c b'9'

-- A number after an optional sign, if there is one. What is out of range of an int is not told apart.
unfoldable pub signed_number : Bytes → Option ℤ
signed_number [] = none
signed_number (c ∷ []) = if is_digit c then some (signed_value (c ∷ [])) else none
signed_number (c ∷ d ∷ s) =
    if is_digit c || ((c == b'-' || c == b'+') && is_digit d)
    then some (signed_value (c ∷ d ∷ s))
    else none

-- std::stoi, `none` for invalid_argument.
unfoldable pub stoi : Bytes → Option ℤ
stoi [] = none
stoi (c ∷ s) =
    let rest = stoi s in if c == b' ' || (leb 9 c && leb c 13) then rest else signed_number (c ∷ s)

-- getDataObject of a DataList: `value(index)`, null for an index out of range.
unfoldable pub list_object : List Addr → ℤ → Addr
list_object xs (negsuc i) = null
list_object xs (pos i) = elim (get_elem? xs i) [ none ↦ null | some a ↦ a ]

-- getDataObject of a DataDict.
unfoldable pub dict_object : HashMap Bytes Addr → Bytes → Addr
dict_object m k = valueref m k null

abbrev pub hash_key : Bytes
hash_key = b'#' ∷ []

-- The two casts of `get`, for the object that the path up to its last dot leads to.
unfoldable pub sub_object : Content → Bytes → Lookup
sub_object (data_list xs) k =
    if k == hash_key
    then (elim (stoi (drop 1 k)) [ none ↦ invalid_argument | some i ↦ pointer (list_object xs i) ])
    else pointer null
sub_object (data_dict m) k = if k == hash_key then pointer null else pointer (dict_object m k)
sub_object other k = pointer null

module _ (store : DataStore) where
  -- What `get` does with what its call of itself returns.
  unfoldable pub get_from : Lookup → Bytes → Lookup
  get_from invalid_argument k = invalid_argument
  get_from (pointer d) k = if d == null then pointer null else sub_object (store.content d) k

  -- data::get, with fuel for its call of itself; `none` is out of fuel.
  unfoldable pub get_fuel : ℕ → Bytes → Option Lookup
  get_fuel zero path = none
  get_fuel (suc fuel) path =
      let d = valueref store.entries path null in
      if d == null
      then elim (rfind_dot path) [
        | none ↦ some (pointer null)
        | some n ↦
            let rest = get_fuel fuel (take n path) in
            if n == 0
            then some (pointer null)
            else (elim rest [ none ↦ none | some l ↦ some (get_from l (drop (suc n) path)) ])
      ]
      else some (pointer d)

  -- Each call is for a shorter path.
  unfoldable pub get : Bytes → Option Lookup
  get path = get_fuel (suc (length path)) path
