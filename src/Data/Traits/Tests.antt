-- ===== src/Data/Traits/Tests.antt =====
-- std::string, int, const char*, and a pointer to a data object.
use module_flow.Prelude.{◌≡◌, refl, true, false, none, some, ◌⊎◌, ◌↔◌, ◌≤◌, ◌≡◌}
use module_flow.Data.Traits.{
  CppType, plain_data, atomic_data, mutex_data, json_traits, matching, instance_of, is_basic,
  standard_data, standard_string_data, user_define_data, auto_t, created_class, std_string_type,
  creator_with, new_data, valid, basic,
}
use module_flow.Data.Traits.Laws.{conditions, created_class_lem}

abbrev opaque_type : CppType
opaque_type = record {
  json_interface = false;
  to_data_object = false;
  to_std_string = false;
  to_c_string = false;
  to_json_value = false;
  is_pointer = false;
  list_likely = false;
  map_likely = false;
}

abbrev int_type : CppType
int_type = record opaque_type { to_json_value = true }

abbrev c_string_type : CppType
c_string_type = record std_string_type { to_c_string = true; is_pointer = true }

abbrev data_object_pointer : CppType
data_object_pointer = record opaque_type {
  to_data_object = true;
  is_pointer = true;
  to_json_value = true;
}

created_class_lem_example :
    (created_class (plain_data c_string_type) ≡ some user_define_data
      ↔ (conditions c_string_type ≡ 0) × (true ≡ false))
    × (created_class (plain_data c_string_type) ≡ some standard_data
        ↔ (conditions c_string_type ≡ 1) × (false ≡ false) × (true ≡ false))
    × (created_class (plain_data c_string_type) ≡ none
        ↔ (2 ≤ conditions c_string_type) ⊎ ((false ≡ true) ⊎ (true ≡ true)))
    × (auto_t (plain_data c_string_type) ≡ some standard_string_data
        ↔ (conditions c_string_type ≡ 1) × (false ≡ false) × (true ≡ true))
    × (created_class (atomic_data c_string_type) ≡ none
        ↔ (true ≡ true) × (is_basic c_string_type ≡ true))
    × (created_class (mutex_data c_string_type) ≡ none
        ↔ (true ≡ true) × (is_basic c_string_type ≡ true))
created_class_lem_example = created_class_lem c_string_type

classes :
    (auto_t (plain_data std_string_type) ≡ none)
    × (auto_t (plain_data int_type) ≡ some standard_data)
    × (auto_t (plain_data c_string_type) ≡ some standard_string_data)
    × (auto_t (plain_data data_object_pointer) ≡ none)
    × (auto_t (plain_data opaque_type) ≡ some user_define_data)
    × (json_traits (atomic_data int_type) ≡ some basic)
    × (created_class (plain_data c_string_type) ≡ none)
unfolding created_class auto_t json_traits matching instance_of creator_with new_data valid
classes = (refl, refl, refl, refl, refl, refl, refl)
