-- ===== src/Data/Store/Tests.antt =====
-- A manager with the list "xs" at 5, which holds the object 9, and the dictionary "d" at 6.
use module_flow.Prelude.{◌≡◌, ◌↔◌, refl, some, [], ◌∷◌, ◌==◌, nat_eq, list_eq, if◌then◌else◌, arith}
use module_flow.Container.HashMap.{HashMap, find, valueref}
use module_flow.Data.Json.{Bytes}
use module_flow.Object.Heap.{Addr, null}
use module_flow.Data.Store.{
  DataStore, other, data_list, data_dict, Lookup, pointer, invalid_argument, rfind_dot, get,
  get_fuel, get_from, sub_object, stoi,
}
use module_flow.Data.Store.Elements.{get_total}
use module_flow.Data.Store.Reach.{Reaches, get-Reaches}

abbrev xs_key : Bytes
xs_key = b'x' ∷ b's' ∷ []

abbrev dict_key : Bytes
dict_key = b'd' ∷ []

abbrev members : HashMap Bytes Addr
members = (b'k' ∷ [], 7) ∷ []

abbrev store : DataStore
store = record {
  entries = (xs_key, 5) ∷ (dict_key, 6) ∷ [];
  content = λ a. if a == 5 then data_list (9 ∷ []) else if a == 6 then data_dict members else other;
}

-- "xs.#0"
abbrev element_path : Bytes
element_path = b'x' ∷ b's' ∷ b'.' ∷ b'#' ∷ b'0' ∷ []

-- "d.k"
abbrev entry_path : Bytes
entry_path = b'd' ∷ b'.' ∷ b'k' ∷ []

get_total_example : (l : Lookup) × (get store element_path ≡ some l)
get_total_example = get_total store element_path

get-Reaches_example : get store entry_path ≡ some (pointer 7) ↔ Reaches store entry_path 7
get-Reaches_example = get-Reaches store entry_path 7 (omega arith)

-- "xs.#" ends in the exception of std::stoi.
get_hash : get store (b'x' ∷ b's' ∷ b'.' ∷ b'#' ∷ []) ≡ some invalid_argument
unfolding valueref find rfind_dot get get_fuel get_from sub_object stoi
get_hash = refl

-- "xs.#0" leads to a list with an element, and finds nothing.
get_in_list : get store element_path ≡ some (pointer null)
unfolding valueref find rfind_dot get get_fuel get_from sub_object
get_in_list = refl
