-- ===== src/Data/Objects/Raw.antt =====
-- What PrivateDataContainerBase, DataList and DataDict of include/basic/data_manager_def.h do with
-- types and values that are not data objects yet: insertDataT, replace, append_raw, append_empty,
-- from_raw and fromRaw; and UserDefineDataObject<void>. `initial T` is T(), and all types have a JSON
-- form. The forms for several values do not compile.
pub mod Laws
use module_flow.Prelude.{
  ℕ, zero, suc, ◌+◌, ◌^◌, ◌≡◌, refl, ap, ◌∙◌, Bool, true, false, Option, none, some, List, [], ◌∷◌,
  ◌++◌, ◌<◌, map, arith, ◌==◌, nat_eq, list_eq, if◌then◌else◌, length, get_elem?, ℤ, pos, leb, ltb,
  lt→ltb, to_int32_small, beq_self,
}
use module_flow.Container.HashMap.{HashMap}
use module_flow.Container.HashMap as Hash
use module_flow.Container.Vector.{value, append, has, size_int}
use module_flow.Container.Vector as Vector
use module_flow.Data.Json.{Bytes, JsonLibrary}
use module_flow.Data.Reference.{JsonRef}
use module_flow.Data.Objects.{
  DataObject, standard_class, make_data_ptr, dict_insert, cast_standard, default_serialize,
}

module _ {j : JsonLibrary} {V : Type 0} where
  -- getDataObject and getDataT of a DataList, `none` as for value
  unfoldable pub list_get : List (Option (DataObject j V)) → ℤ → Option (Option (DataObject j V))
  list_get xs key = value xs key none

  unfoldable pub list_get_t :
      (V → ℕ) → ℕ → List (Option (DataObject j V)) → ℤ → Option (Option (DataObject j V))
  unfolding list_get cast_standard
  list_get_t type_of type xs key = elim (list_get xs key) [
    | none ↦ none
    | some d ↦ some (cast_standard type_of type d)
  ]

  -- insertDataT(key, d) of a DataList, `none` for a place that there is not
  unfoldable pub list_insert :
      ℤ → V → List (Option (DataObject j V)) → Option (List (Option (DataObject j V)))
  unfolding make_data_ptr
  list_insert key d xs = Vector.insert_one key (make_data_ptr d) xs

  -- replace(key, d) of a DataDict
  unfoldable pub dict_replace :
      Bytes → V → HashMap Bytes (Option (DataObject j V)) → HashMap Bytes (Option (DataObject j V))
  unfolding make_data_ptr
  dict_replace key d m = Hash.insert_one key (make_data_ptr d) m

  -- append_raw(d)
  unfoldable pub append_raw : V → List (Option (DataObject j V)) → List (Option (DataObject j V))
  unfolding make_data_ptr append
  append_raw d xs = append (make_data_ptr d) xs

  -- from_raw(d)
  unfoldable pub from_raw : V → List (Option (DataObject j V))
  unfolding append_raw
  from_raw d = append_raw d []

  -- fromRaw(keys, d)
  unfoldable pub dict_from_raw : List Bytes → V → HashMap Bytes (Option (DataObject j V))
  unfolding from_raw
  dict_from_raw keys d = Hash.from_multi_kv keys (from_raw d) []

  module _ (initial : ℕ → V) where
    -- make_data_ptr<T>()
    unfoldable pub make_empty_ptr : ℕ → Option (DataObject j V)
    make_empty_ptr type = some (record { class_ = standard_class; data_ = initial type })

    -- insertDataT<T>(key) of a DataDict and of a DataList
    unfoldable pub dict_insert_empty :
        Bytes
        → ℕ
        → HashMap Bytes (Option (DataObject j V))
        → HashMap Bytes (Option (DataObject j V))
    unfolding make_empty_ptr
    dict_insert_empty key type m = Hash.insert_one key (make_empty_ptr type) m

    unfoldable pub list_insert_empty :
        ℤ → ℕ → List (Option (DataObject j V)) → Option (List (Option (DataObject j V)))
    unfolding make_empty_ptr
    list_insert_empty key type xs = Vector.insert_one key (make_empty_ptr type) xs

    -- append_empty<T, Tn...>()
    unfoldable pub append_empty :
        List ℕ → List (Option (DataObject j V)) → List (Option (DataObject j V))
    unfolding make_empty_ptr append
    append_empty [] xs = xs
    append_empty (t ∷ ts) xs = append_empty ts (append (make_empty_ptr t) xs)

    -- from_raw<Tn...>()
    unfoldable pub from_types : List ℕ → List (Option (DataObject j V))
    unfolding append_empty
    from_types ts = append_empty ts []

-- UserDefineDataObject<void>: a call of an empty function throws, here `none`.
module _ (j : JsonLibrary) where
  open j use {Value}

  pub record VoidDataObject : Type 0 where
    pub s_ : Option Value
    pub d_ : Option (JsonRef j → Bool)

  unfoldable pub void_serialize : VoidDataObject → Option Value
  void_serialize o = o.s_

  unfoldable pub void_deserialize : VoidDataObject → JsonRef j → Bool
  void_deserialize o r = elim o.d_ [ none ↦ false | some d ↦ d r ]
