-- ===== src/Data/Forms/Vectors.antt =====
-- std::vector<double> as JSON.
use module_flow.Prelude.{◌≡◌, refl, true, false, some, List, ◌<◌, ◌^◌, length}
use module_flow.Data.Json.{JsonLibrary, JsonLaws}
use module_flow.Data.Reference.{JsonRef, to}
use module_flow.Data.Reference.Reads.{double_of}
use module_flow.Data.Scalars.{from_basic}
use module_flow.Data.Scalars.RoundTrip.{double_of-of_double}
use module_flow.Data.Convert.{from_list}
use module_flow.Data.Convert.RoundTrip.{from_list-to_list}
use module_flow.Data.Traits.{json_traits, instance_of, matching}
use module_flow.Data.Forms.{
  from_invalid, standard_vector_from_json, vector_from_json, vector_to_json,
}

-- What custom::toJson writes for a vector of fewer than 2^31 doubles is an array that
-- standard::fromJson reads back into any container::Vector of fewer than 2^31 doubles; but
-- custom::fromJson of a std::vector reports failure for every document, and leaves of the vector what
-- two moves leave.
pub vector_from_json-vector_to_json :
    (j : JsonLibrary) (laws : JsonLaws j) (moved : List j.Double → List j.Double)
    (ds ys old : List j.Double) (r : JsonRef j)
    → length ds < 2 ^ 31
    → length ys < 2 ^ 31
    → (from_list j (from_basic (double_of j)) true j.zero_double (to (vector_to_json j ds)) ys
        ≡ (ds, true))
      × (vector_from_json j moved r old ≡ some (moved (moved old), false))
unfolding vector_from_json standard_vector_from_json vector_to_json json_traits instance_of matching
    from_invalid
vector_from_json-vector_to_json j laws moved ds ys old r h k = (
  from_list-to_list j laws j.of_double (from_basic (double_of j))
      (λ a x. unfold from_basic in rw (double_of-of_double j laws a)) j.zero_double ds ys h k,
  refl,
)
