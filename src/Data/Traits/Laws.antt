-- ===== src/Data/Traits/Laws.antt =====
-- Which types can be data, and as what.
use module_flow.Prelude.{
  ℕ, ◌+◌, ◌≡◌, Bool, true, false, none, some, if◌then◌else◌, ◌↔◌, ◌⊎◌, ◌≤◌, arith,
}
use module_flow.Data.Traits.{
  CppType, plain_data, atomic_data, mutex_data, valid, instance_of, matching, json_traits, is_basic,
  standard_data, standard_string_data, user_define_data, creator_with, new_data, auto_t,
  created_class,
}

abbrev one_if : Bool → ℕ
one_if b = if b then 1 else 0

-- How many of the six conditions of JsonTraits hold.
abbrev pub conditions : CppType → ℕ
conditions t =
    one_if t.json_interface
    + one_if t.to_data_object
    + one_if t.to_std_string
    + one_if (is_basic t)
    + one_if t.list_likely
    + one_if t.map_likely

-- Which class AutoT<T> names by the conditions of JsonTraits that hold of T, and when the members of
-- this class find an instance of JsonTraits, without which data::create does not compile: for
-- UserDefineDataObject if no condition holds and T does not convert to const char*; for
-- StandardDataObject<T> if one holds and T converts neither to DataObject* nor to const char*; and in
-- no other case. So data::create does not compile where two conditions hold, nor for any type that
-- converts to DataObject* or to const char*: for the latter, if one condition holds and T does not
-- convert to DataObject*, AutoT<T> names StandardDataObject<std::string>, which has no JsonTraits. Of
-- the atomic types only those are without a class whose type converts to std::string and to
-- Json::Value.
pub created_class_lem :
    (t : CppType)
    → (created_class (plain_data t) ≡ some user_define_data
        ↔ (conditions t ≡ 0) × (t.to_c_string ≡ false))
      × (created_class (plain_data t) ≡ some standard_data
          ↔ (conditions t ≡ 1) × (t.to_data_object ≡ false) × (t.to_c_string ≡ false))
      × (created_class (plain_data t) ≡ none
          ↔ (2 ≤ conditions t) ⊎ ((t.to_data_object ≡ true) ⊎ (t.to_c_string ≡ true)))
      × (auto_t (plain_data t) ≡ some standard_string_data
          ↔ (conditions t ≡ 1) × (t.to_data_object ≡ false) × (t.to_c_string ≡ true))
      × (created_class (atomic_data t) ≡ none ↔ (t.to_std_string ≡ true) × (is_basic t ≡ true))
      × (created_class (mutex_data t) ≡ none ↔ (t.to_std_string ≡ true) × (is_basic t ≡ true))
unfolding created_class auto_t json_traits matching instance_of creator_with new_data valid
created_class_lem t = ground arith
