-- ===== src/Data/Objects/Laws.antt =====
-- What a DataDict finds.
use module_flow.Prelude.{
  ℕ, ◌≡◌, Option, none, some, ◌==◌, nat_eq, list_eq, if◌then◌else◌, Bool-cases, inl, inr,
}
use module_flow.Container.HashMap.{HashMap}
use module_flow.Container.HashMap.Laws.{valueref-insert_one}
use module_flow.Data.Json.{Bytes, JsonLibrary}
use module_flow.Data.Objects.{
  DataObject, standard_class, dict_get, dict_get_t, dict_insert, cast_standard, is_standard,
  make_data_ptr,
}

-- What a DataDict finds under each key, as an object of each type, after a value was put in.
dict_get_t-dict_insert :
    {j : JsonLibrary} {V : Type 0} (type_of : V → ℕ) (type : ℕ) (key k : Bytes) (d : V)
    (m : HashMap Bytes (Option (DataObject j V)))
    → dict_get_t type_of type (dict_insert key d m) k ≡ (
        if key == k
        then (if type_of d == type then make_data_ptr d else none)
        else dict_get_t type_of type m k)
unfolding dict_get_t dict_insert dict_get cast_standard is_standard make_data_ptr
dict_get_t-dict_insert type_of type key k d m =
    rw (valueref-insert_one key k (some (record { class_ = standard_class; data_ = d })) none m)
      (elim (Bool-cases (key == k)) [ inl y ↦ rw y | inr n ↦ rw n ])
