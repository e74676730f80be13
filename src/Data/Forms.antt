-- ===== src/Data/Forms.antt =====
-- The forms of standard::fromJson and toJson that only pass on (include/basic/data_manager_def.h): for
-- types without a JSON form, types that have one of their own, texts, new values, and shared pointers
-- to data objects; and those for std::vector<double> in namespace custom
-- (src/basic/data_manager_impl.cpp).
pub mod Vectors
mod Tests
use module_flow.Prelude.{Bool, true, false, Option, none, some, List}
use module_flow.Data.Json.{JsonLibrary}
use module_flow.Data.Reference.{JsonRef}
use module_flow.Data.Scalars.{
  AtomicData, MutexData, from_atomic, to_atomic, from_mutex, to_mutex, from_basic,
}
use module_flow.Data.Convert.{to_list}
use module_flow.Data.Objects.{DataObject, object_from_json, object_to_json}
use module_flow.Data.Traits.{
  CppType, plain_data, json_traits, JsonTraits, invalid, serializable, object, std_string, basic,
  list_traits, map_traits,
}

module _ (j : JsonLibrary) {T : Type 0} where
  open j use {Value}

  -- FromInvalid and ToInvalid
  unfoldable pub from_invalid : JsonRef j → T → T × Bool
  from_invalid r d = (d, false)

  unfoldable pub to_invalid : T → Value
  to_invalid d = j.null_value

  -- FromSerializable and ToSerializable, for the two functions of the type.
  unfoldable pub from_serializable : (JsonRef j → T → T × Bool) → JsonRef j → T → T × Bool
  from_serializable deserialize r d = deserialize r d

  unfoldable pub to_serializable : (T → Value) → T → Value
  to_serializable serialize d = serialize d

  -- FromStdString, ToStdString and ToBasic: `read` is toT<T>, `write` the constructor of Json::Value.
  unfoldable pub from_std_string : (JsonRef j → T × Bool) → JsonRef j → T → T × Bool
  from_std_string read r d = let (t, ok) = read r in (t, ok)

  unfoldable pub to_std_string : (T → Value) → T → Value
  to_std_string write d = write d

  unfoldable pub to_basic : (T → Value) → T → Value
  to_basic write d = write d

  -- The same for a text in an AtomicData or a MutexData.
  unfoldable pub from_string_atomic :
      (JsonRef j → T × Bool) → JsonRef j → AtomicData T → AtomicData T × Bool
  unfolding from_atomic
  from_string_atomic read r d = from_atomic read r d

  unfoldable pub to_string_atomic : (T → Value) → AtomicData T → Value
  unfolding to_atomic
  to_string_atomic write d = to_atomic write d

  unfoldable pub from_string_mutex :
      (JsonRef j → T × Bool) → JsonRef j → MutexData T → Option (MutexData T × Bool)
  unfolding from_mutex
  from_string_mutex read r d = from_mutex read r d

  unfoldable pub to_string_mutex : (T → Value) → MutexData T → Option (Value × MutexData T)
  unfolding to_mutex
  to_string_mutex write d = to_mutex write d

  -- T fromJson(jref): what is read into a new value, of which the program may not have set a thing.
  unfoldable pub from_new : (JsonRef j → T → T × Bool) → T → JsonRef j → T
  from_new elem d r = (elem r d).0

-- fromJson and toJson of a shared pointer to a data object, those of the pointer in it.
module _ {j : JsonLibrary} {V : Type 0} (to_json : V → j.Value)
    (from_json : JsonRef j → V → V × Bool) where
  unfoldable pub shared_from_json :
      JsonRef j → Option (DataObject j V) → Option (DataObject j V) × Bool
  unfolding object_from_json
  shared_from_json r dptr = object_from_json to_json from_json r dptr

  unfoldable pub shared_to_json : Option (DataObject j V) → Option j.Value
  unfolding object_to_json
  shared_to_json dptr = object_to_json to_json from_json dptr

-- std::vector<double> converts to nothing and has no member _list_likely.
abbrev pub vector_type : CppType
vector_type = record {
  json_interface = false;
  to_data_object = false;
  to_std_string = false;
  to_c_string = false;
  to_json_value = false;
  is_pointer = false;
  list_likely = false;
  map_likely = false;
}

module _ (j : JsonLibrary) where
  open j use {Double}

  -- standard::fromJson for std::vector<double>, by its traits; no other form takes such a vector.
  unfoldable pub standard_vector_from_json : JsonRef j → List Double → Option (List Double × Bool)
  unfolding json_traits from_invalid
  standard_vector_from_json r d = elim (json_traits (plain_data vector_type)) [
    | none ↦ none
    | some traits ↦ elim traits [
      | invalid ↦ some (from_invalid j r d)
      | serializable ↦ none
      | object ↦ none
      | std_string ↦ none
      | basic ↦ none
      | list_traits ↦ none
      | map_traits ↦ none
    ]
  ]

  -- custom::fromJson<std::vector<double>>: `moved` is what a move leaves of a vector. The value that
  -- `_ds` takes in the end is dropped with it.
  unfoldable pub vector_from_json :
      (List Double → List Double) → JsonRef j → List Double → Option (List Double × Bool)
  unfolding standard_vector_from_json
  vector_from_json moved r d = elim (standard_vector_from_json r (moved d)) [
    | none ↦ none
    | some (d', result) ↦ some (moved d', result)
  ]

  -- custom::toJson<std::vector<double>>, by way of container::Vector<double>
  unfoldable pub vector_to_json : List Double → j.Value
  unfolding to_list
  vector_to_json d = to_list j j.of_double d
