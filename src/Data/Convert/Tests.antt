-- ===== src/Data/Convert/Tests.antt =====
-- Lists and maps of ints, arrays of doubles, and single ints, written and read.
use module_flow.Prelude.{◌≡◌, refl, Bool, true, List, [], ◌∷◌, ℤ, pos, negsuc, arith}
use module_flow.Data.Samples.{int_doc, documents}
use module_flow.Data.Samples.Laws.{documents-JsonLaws}
use module_flow.Data.Reference.{JsonRef, to, to_int, convert, value}
use module_flow.Container.HashMap.{HashMap, find, has, valueref}
use module_flow.Data.Json.{Bytes}
use module_flow.Data.Convert.Maps.{from_map-to_map}
use module_flow.Data.Convert.{from_map, to_map, from_list, to_list}
use module_flow.Data.Convert.Nested.{from_nested, to_nested, from_nested-to_nested}
use module_flow.Data.Convert.RoundTrip.{from_list-to_list}

-- standard::fromJson for an int, which keeps what it finds if the value is no number.
abbrev read_int : JsonRef documents → ℤ → ℤ × Bool
read_int r x = to_int documents r x

abbrev numbers : List ℤ
numbers = pos 3 ∷ negsuc 0 ∷ []

from_list-to_list_example :
    from_list documents read_int true (pos 0) (to (to_list documents int_doc numbers)) (pos 9 ∷ [])
    ≡ (numbers, true)
unfolding to_int convert value
from_list-to_list_example =
    from_list-to_list documents documents-JsonLaws int_doc read_int (λ a x. refl) (pos 0) numbers
      (pos 9 ∷ []) (omega arith) (omega arith)

abbrev levels : HashMap Bytes ℤ
levels = (b'a' ∷ [], pos 3) ∷ (b'b' ∷ [], negsuc 0) ∷ []

from_map-to_map_example :
    from_map documents read_int (to (to_map documents int_doc levels)) ((b'b' ∷ [], pos 9) ∷ [])
    ≡ ((b'b' ∷ [], negsuc 0) ∷ [], true)
unfolding to_int convert value find has valueref
from_map-to_map_example =
    from_map-to_map documents documents-JsonLaws int_doc read_int (λ a x. refl) levels
      ((b'b' ∷ [], pos 9) ∷ []) (refl, (refl, tt)) (refl, tt)

-- Two lists of lists of ints, the one read into the other.
from_nested-to_nested_example :
    from_nested documents ℤ read_int
      (pos 0)
      2
      (to (to_nested documents ℤ int_doc 2 (numbers ∷ [] ∷ [])))
      ((pos 9 ∷ []) ∷ [])
    ≡ (numbers ∷ [] ∷ [], true)
unfolding to_int convert value
from_nested-to_nested_example =
    from_nested-to_nested documents ℤ documents-JsonLaws int_doc read_int (λ a x. refl) (pos 0) 2
      (numbers ∷ [] ∷ []) ((pos 9 ∷ []) ∷ []) (omega arith) (omega arith)
