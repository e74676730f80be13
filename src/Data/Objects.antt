-- ===== src/Data/Objects.antt =====
-- The classes of data objects of include/basic/data_manager_def.h that have a JSON form, the casts to
-- them, fromJson and toJson of pointers to data objects (src/basic/data_manager_impl.cpp), and what
-- DataList and DataDict do with such pointers. Types are numbers, and a value is one of any type; what
-- an object is besides, its name and its signals, is in TypedObject and in Object.
pub mod Laws
pub mod Lists
pub mod Raw
mod Tests
use module_flow.Prelude.{
  ℕ, Bool, true, false, Option, none, some, List, ◌==◌, nat_eq, list_eq, if◌then◌else◌, ◌&&◌, ℤ,
}
use module_flow.Container.HashMap.{HashMap, valueref, insert_one}
use module_flow.Container.Vector.{value as list_value}
use module_flow.Data.Json.{Bytes, JsonLibrary}
use module_flow.Data.Reference.{JsonRef}

module _ (j : JsonLibrary) where
  open j use {Value}

  -- JsonInterface::serialize and JsonInterface::deserialize
  unfoldable pub default_serialize : Value
  default_serialize = j.null_value

  unfoldable pub default_deserialize : JsonRef j → Bool
  default_deserialize r = false

module _ (j : JsonLibrary) (V : Type 0) where
  open j use {Value}

  abbrev pub Serializer : Type 0
  Serializer = V → Value

  -- A function that fills its argument returns what it leaves there, and its result.
  abbrev pub Deserializer : Type 0
  Deserializer = JsonRef j → V → V × Bool

  -- DataObject, TDataObject<T>, StandardDataObject<T>, StandardDataObject<void>, and
  -- UserDefineDataObject<T> with `s_` and `d_`, of which each may be empty.
  pub data DataClass : Type 0 where
    base_class typed_class standard_class standard_void_class : DataClass
    user_define_class : Option Serializer → Option Deserializer → DataClass

  -- What a JsonInterface* shows of an object: its functions serialize and deserialize.
  pub data JsonPart : Type 0 where
    standard_json default_json : JsonPart
    user_define_json : Option Serializer → Option Deserializer → JsonPart

  -- `data_` means nothing for the classes without a value, the first and the fourth.
  pub record DataObject : Type 0 where
    pub class_ : DataClass
    pub data_ : V

module _ {j : JsonLibrary} {V : Type 0} where
  open j use {Value}

  -- The part of an object that is a JsonInterface, none for a class that does not derive from it. The
  -- one of StandardDataObject<void> has the functions of JsonInterface itself.
  unfoldable pub json_part : DataClass j V → Option (JsonPart j V)
  json_part base_class = none
  json_part typed_class = none
  json_part standard_class = some standard_json
  json_part standard_void_class = some default_json
  json_part (user_define_class s d) = some (user_define_json s d)

  -- Whether a class derives from TemplateDataInterface<T> for a type T other than void, and from
  -- StandardDataObject<T> for such a type.
  unfoldable pub has_value : DataClass j V → Bool
  has_value base_class = false
  has_value standard_void_class = false
  has_value _ = true

  unfoldable pub is_standard : DataClass j V → Bool
  is_standard standard_class = true
  is_standard (user_define_class s d) = true
  is_standard _ = false

  -- json_holder(DataObject*), a dynamic_cast: the part with the object that it is a part of, `none` for
  -- null and where the cast fails
  unfoldable pub json_holder : Option (DataObject j V) → Option (JsonPart j V × DataObject j V)
  unfolding json_part
  json_holder none = none
  json_holder (some o) = elim (json_part o.class_) [ none ↦ none | some p ↦ some (p, o) ]

  module _ (type_of : V → ℕ) where
    -- holder<T>(DataObject*)
    unfoldable pub holder : ℕ → Option (DataObject j V) → Option (DataObject j V)
    unfolding has_value
    holder type none = none
    holder type (some o) = if has_value o.class_ && type_of o.data_ == type then some o else none

    -- The cast of getDataT<T>, for a type T with a JSON form.
    unfoldable pub cast_standard : ℕ → Option (DataObject j V) → Option (DataObject j V)
    unfolding is_standard
    cast_standard type none = none
    cast_standard type (some o) =
        if is_standard o.class_ && type_of o.data_ == type then some o else none

  -- `to_json` and `from_json` are standard::toJson and standard::fromJson for the type of a value.
  module _ (to_json : V → Value) (from_json : JsonRef j → V → V × Bool) where
    -- serialize(); to call an empty function throws, here `none`.
    unfoldable pub serialize : JsonPart j V → V → Option Value
    unfolding default_serialize
    serialize standard_json v = some (to_json v)
    serialize default_json v = some (default_serialize j)
    serialize (user_define_json (some s) d) v = some (s v)
    serialize (user_define_json none d) v = none

    -- deserialize(jref)
    unfoldable pub deserialize : JsonPart j V → JsonRef j → V → V × Bool
    unfolding default_deserialize
    deserialize standard_json r v = from_json r v
    deserialize default_json r v = (v, default_deserialize j r)
    deserialize (user_define_json s (some d)) r v = d r v
    deserialize (user_define_json s none) r v = (v, false)

    -- standard::toJson(DataObject*)
    unfoldable pub object_to_json : Option (DataObject j V) → Option Value
    unfolding json_holder serialize
    object_to_json d = elim (json_holder d) [
      | none ↦ some j.null_value
      | some (p, o) ↦ serialize p o.data_
    ]

    -- standard::fromJson(jref, DataObject*)
    unfoldable pub object_from_json :
        JsonRef j → Option (DataObject j V) → Option (DataObject j V) × Bool
    unfolding json_holder deserialize
    object_from_json r d = elim (json_holder d) [
      | none ↦ (d, false)
      | some (p, o) ↦ let (v, ok) = deserialize p r o.data_ in (some (record o { data_ = v }), ok)
    ]

  -- make_data_ptr(d), for a type T with a JSON form
  unfoldable pub make_data_ptr : V → Option (DataObject j V)
  make_data_ptr d = some (record { class_ = standard_class; data_ = d })

  -- DataDict: getDataObject, getDataT, and insertDataT and replace, which do the same here. The new
  -- pointer is shared with nobody.
  unfoldable pub dict_get :
      HashMap Bytes (Option (DataObject j V)) → Bytes → Option (DataObject j V)
  dict_get m key = valueref m key none

  unfoldable pub dict_get_t :
      (V → ℕ) → ℕ → HashMap Bytes (Option (DataObject j V)) → Bytes → Option (DataObject j V)
  unfolding dict_get cast_standard
  dict_get_t type_of type m key = cast_standard type_of type (dict_get m key)

  unfoldable pub dict_insert :
      Bytes → V → HashMap Bytes (Option (DataObject j V)) → HashMap Bytes (Option (DataObject j V))
  unfolding make_data_ptr
  dict_insert key d m = insert_one key (make_data_ptr d) m
