-- ===== src/Data/Objects/Tests.antt =====
-- Data objects with ints, among the documents of Samples.
use module_flow.Prelude.{
  get_elem?, ◌≡◌, refl, Bool, true, false, Option, none, some, [], ◌∷◌, arith, ℤ, pos, length,
  nat_eq, list_eq,
}
use module_flow.Data.Samples.{int_doc, array_doc, item, no_items, documents}
use module_flow.Data.Reference.{JsonRef, to, value}
use module_flow.Data.Reference.Reads.{int_of}
use module_flow.Data.Scalars.{from_basic}
use module_flow.Data.Convert.{from_list}
use module_flow.Data.Objects.{
  DataObject, standard_class, object_to_json, object_from_json, json_holder, json_part, typed_class,
}
use module_flow.Data.Objects.Lists.{from_list-longer}

abbrev read_int : JsonRef documents → ℤ → ℤ × Bool
read_int r x = from_basic (int_of documents) r x

abbrev int_object : ℤ → Option (DataObject documents ℤ)
int_object n = some (record { class_ = standard_class; data_ = n })

-- An object without a JSON form is written as null and does not read.
no_json_form :
    let o : Option (DataObject documents ℤ) =
      some (record { class_ = typed_class; data_ = pos 4 }) in
    (object_to_json int_doc read_int o ≡ some documents.null_value)
    × (object_from_json int_doc read_int (to (int_doc (pos 9))) o ≡ (o, false))
unfolding object_to_json object_from_json json_holder json_part
no_json_form = (refl, refl)

abbrev two_ints : JsonRef documents
two_ints = to (array_doc (item (int_doc (pos 1)) (item (int_doc (pos 2)) no_items)))

from_list-longer_example :
    let r =
      from_list documents
        (object_from_json int_doc read_int)
        true
        none
        two_ints
        (int_object (pos 9) ∷ []) in
    (length r.0 ≡ 2) × (get_elem? r.0 1 ≡ some none) × (r.1 ≡ false)
unfolding value
from_list-longer_example =
    from_list-longer int_doc read_int two_ints (int_object (pos 9) ∷ []) 1 refl (omega arith)
      (omega arith) (omega arith) (omega arith)
