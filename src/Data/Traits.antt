-- ===== src/Data/Traits.antt =====
-- How templates choose by type: JsonTraits, PrivateDataCreator, StandardT and AutoT of
-- include/basic/data_manager_def.h. Of a C++ type it matters what the type traits that the templates
-- test say of it. `none` stands for what does not compile.
pub mod Laws
mod Tests
use module_flow.Prelude.{
  Bool, true, false, Option, none, some, List, [], ◌∷◌, ◌++◌, if◌then◌else◌, not, ◌&&◌,
}

-- A type without const and reference.
pub record CppType : Type 0 where
  -- std::is_base_of<JsonInterface, T>
  pub json_interface : Bool
  -- std::is_convertible from T to DataObject*, std::string, const char* and Json::Value
  pub to_data_object : Bool
  pub to_std_string : Bool
  pub to_c_string : Bool
  pub to_json_value : Bool
  pub is_pointer : Bool
  -- T::_list_likely::value and T::_map_likely::value, false where there is no such member
  pub list_likely : Bool
  pub map_likely : Bool

-- AtomicData<T> and MutexData<T> convert to nothing, and have no base and no such member.
pub data DataType : Type 0 where
  plain_data : CppType → DataType
  atomic_data : CppType → DataType
  mutex_data : CppType → DataType

-- The specialisations of JsonTraits, by the names of their typedefs. The functions fromJson and
-- toJson with these names are the ones that are called.
pub data JsonTraits : Type 0 where
  invalid serializable object std_string basic list_traits map_traits : JsonTraits

-- JsonTraits<T>::VALID
unfoldable pub valid : JsonTraits → Bool
valid invalid = false
valid _ = true

module _ {A : Type 0} where
  -- The specialisation `x` under the condition `b`.
  abbrev pub enable_if : Bool → A → List A
  enable_if b x = if b then x ∷ [] else []

  -- The instance of a template: the primary one if no specialisation matches, and none where
  -- several do, of which none is more special than the others.
  unfoldable pub instance_of : A → List A → Option A
  instance_of primary [] = some primary
  instance_of primary (x ∷ []) = some x
  instance_of primary (x ∷ y ∷ xs) = none

abbrev pub is_basic : CppType → Bool
is_basic t = not t.is_pointer && t.to_json_value

unfoldable pub matching : DataType → List JsonTraits
matching (plain_data t) =
    enable_if t.json_interface serializable
    ++ (enable_if t.to_data_object object
        ++ (enable_if t.to_std_string std_string
            ++ (enable_if (is_basic t) basic
                ++ (enable_if t.list_likely list_traits ++ enable_if t.map_likely map_traits))))
matching (atomic_data t) = enable_if t.to_std_string std_string ++ enable_if (is_basic t) basic
matching (mutex_data t) = enable_if t.to_std_string std_string ++ enable_if (is_basic t) basic

unfoldable pub json_traits : DataType → Option JsonTraits
unfolding instance_of matching
json_traits t = instance_of invalid (matching t)

-- StandardDataObject<T>, StandardDataObject<std::string>, TDataObject<T>, the object itself, and
-- UserDefineDataObject<T>.
pub data NewData : Type 0 where
  standard_data standard_string_data typed_data move_data user_define_data : NewData

abbrev pub moves : DataType → Bool
moves (plain_data t) = t.to_data_object
moves _ = false

abbrev pub is_c_string : DataType → Bool
is_c_string (plain_data t) = t.to_c_string
is_c_string _ = false

-- PrivateDataCreator<T>, for the traits of T.
unfoldable pub creator_with : DataType → JsonTraits → Option NewData
unfolding instance_of valid
creator_with t traits = instance_of standard_data (
    enable_if (moves t) move_data
    ++ (enable_if (is_c_string t) standard_string_data
        ++ enable_if (not (valid traits)) typed_data))

-- Its member NewData_T, which the one for pointers to data objects does not have.
unfoldable pub new_data : Option NewData → Option NewData
new_data none = none
new_data (some move_data) = none
new_data (some d) = some d

-- StandardT<T>, the class of the objects that data::from(d) makes
unfoldable pub standard_t : DataType → Option NewData
unfolding json_traits creator_with new_data
standard_t t = elim (json_traits t) [ none ↦ none | some traits ↦ new_data (creator_with t traits) ]

-- AutoT<T>, the class of the objects that data::create(name, d) makes: it names StandardT<T> also
-- where it is not chosen.
unfoldable pub auto_t : DataType → Option NewData
unfolding json_traits creator_with new_data valid
auto_t t = elim (json_traits t) [
  | none ↦ none
  | some traits ↦ elim (new_data (creator_with t traits)) [
    | none ↦ none
    | some d ↦ some (if valid traits then d else user_define_data)
  ]
]

-- std::string as a type: it converts to itself and to Json::Value.
abbrev pub std_string_type : CppType
std_string_type = record {
  json_interface = false;
  to_data_object = false;
  to_std_string = true;
  to_c_string = false;
  to_json_value = true;
  is_pointer = false;
  list_likely = false;
  map_likely = false;
}

-- The class of the new object in data::create(name, d), none where the class or its JsonTraits has no
-- instance: the members serialize and deserialize of StandardDataObject<T> ask for JsonTraits<T> again,
-- which for StandardDataObject<std::string> is another type than that of `d`. What else these members
-- need of T, as for the elements of a list or a map, comes on top of this.
unfoldable pub created_class : DataType → Option NewData
unfolding auto_t json_traits
created_class t = elim (auto_t t) [
  | none ↦ none
  | some standard_string_data ↦ elim (json_traits (plain_data std_string_type)) [
    | none ↦ none
    | some traits ↦ some standard_string_data
  ]
  | some d ↦ some d
]
