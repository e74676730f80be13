-- ===== src/Data/Reference/Tests.antt =====
-- Paths through {"pump": {"speed": 3, "l": [4, 5]}}.
use module_flow.Prelude.{◌≡◌, refl, true, some, [], ◌∷◌, ◌++◌, pos, list_eq, nat_eq, to_int32}
use module_flow.Data.Json.{Bytes}
use module_flow.Data.Samples.{
  int_doc, array_doc, object_doc, item, no_items, field, no_fields, documents,
}
use module_flow.Data.Reference.{
  JsonRef, to, get, get_fuel, at_key, at, has_key, has_index, array_size, index_key, atoi, value,
  find_dot, signed_value, digits_value,
}
use module_flow.Data.Reference.Path.{walk, split, get-walk}

abbrev pump : Bytes
pump = b'p' ∷ b'u' ∷ b'm' ∷ b'p' ∷ []

abbrev speed : Bytes
speed = b's' ∷ b'p' ∷ b'e' ∷ b'e' ∷ b'd' ∷ []

abbrev plant : JsonRef documents
plant = to (
    object_doc (
      field pump
        (object_doc (
          field speed (int_doc (pos 3)) (
            field (b'l' ∷ []) (array_doc (item (int_doc (pos 4)) (item (int_doc (pos 5)) no_items)))
              no_fields)))
        no_fields))

-- "pump.speed" is found.
get-speed : get documents plant (pump ++ (b'.' ∷ speed)) ≡ some (to (int_doc (pos 3)), true)
unfolding get get_fuel at_key has_key value find_dot index_key
get-speed = refl

-- The second element of the list is found under "pump.l.#1".
get_element :
    get documents plant (pump ++ (b'.' ∷ b'l' ∷ b'.' ∷ b'#' ∷ b'1' ∷ []))
    ≡ some (to (int_doc (pos 5)), true)
unfolding get get_fuel at_key at has_key has_index array_size to_int32 value find_dot index_key atoi
    signed_value digits_value
get_element = refl

-- The index of a list at the top is.
get_first :
    get documents (to (array_doc (item (int_doc (pos 4)) no_items))) (b'#' ∷ b'0' ∷ [])
    ≡ some (to (int_doc (pos 4)), true)
unfolding get get_fuel at_key at has_index array_size to_int32 value find_dot index_key atoi
    signed_value digits_value
get_first = refl

get-walk_example :
    get documents plant (pump ++ (b'.' ∷ speed))
    ≡ some
        (walk documents plant (split (pump ++ (b'.' ∷ speed))).0 (split (pump ++ (b'.' ∷ speed))).1)
get-walk_example = get-walk documents plant (pump ++ (b'.' ∷ speed))
