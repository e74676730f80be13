-- ===== src/Data/Convert.antt =====
-- Between JSON arrays or objects and containers: the FromList, ToList, FromMap and ToMap forms of
-- standard::fromJson and toJson (include/basic/data_manager_def.h), and the arrays of doubles in
-- namespace custom (src/basic/data_manager_impl.cpp). A function that fills its argument returns
-- what it leaves there, and its result.
pub mod RoundTrip
pub mod Maps
pub mod Nested
mod Tests
use module_flow.Prelude.{
  ℕ, zero, suc, ◌+◌, ◌-◌, ◌≡◌, Bool, true, false, Option, none, some, List, [], ◌∷◌, ◌++◌, ◌<◌,
  ◌==◌, nat_eq, arith, if◌then◌else◌, length, take, drop, ℤ, pos, negsuc, int_eq, to_int32, not,
  ltb_ℤ,
}
use module_flow.Container.HashMap.{HashMap}
use module_flow.Data.Json.{Bytes, JsonLibrary}
use module_flow.Data.Reference.{JsonRef, array_size, at, at_key, to_double, to_index}

-- `resize(n)` of a list, with `d` for the new elements.
unfoldable pub resize_list {ℓ} : {A : Type ℓ} → ℕ → A → List A → List A
resize_list zero d xs = []
resize_list (suc n) d [] = d ∷ resize_list n d []
resize_list (suc n) d (x ∷ xs) = x ∷ resize_list n d xs

module _ (j : JsonLibrary) {A : Type 0} where
  open j use {Value}

  -- The loop over the elements, from index i on: it stops at the first that fails.
  unfoldable pub from_each : (JsonRef j → A → A × Bool) → JsonRef j → ℕ → List A → List A × Bool
  unfolding at
  from_each elem r i [] = ([], true)
  from_each elem r i (x ∷ xs) =
      let (y, ok) = elem (at j r (pos i)).0 x in
      let (ys, b) = from_each elem r (suc i) xs in if ok then (y ∷ ys, b) else (y ∷ xs, false)

  -- fromJson for list-like types; `constructible` is the test on the type of the elements.
  unfoldable pub from_list :
      (JsonRef j → A → A × Bool) → Bool → A → JsonRef j → List A → List A × Bool
  from_list elem constructible d r list =
      if ltb_ℤ (array_size j r) (pos 0)
      then (list, false)
      else if not (array_size j r == to_int32 (length list))
      then if not constructible
        then (list, false)
        else from_each elem r 0 (resize_list (to_index j (array_size j r)) d list)
      else from_each elem r 0 list

  -- The loop that writes the elements, from index i on.
  unfoldable pub write_each : (A → Value) → ℕ → List A → Value → Value
  write_each write i [] v = v
  write_each write i (x ∷ xs) v = write_each write (suc i) xs (j.set_index v i (write x))

  -- toJson for list-like types.
  unfoldable pub to_list : (A → Value) → List A → Value
  to_list write list = write_each write 0 list (j.resize j.empty_array (length list))

  -- fromJson for map-like types: the keys are those of the map.
  unfoldable pub from_map :
      (JsonRef j → A → A × Bool) → JsonRef j → HashMap Bytes A → HashMap Bytes A × Bool
  unfolding at_key
  from_map elem r [] = ([], true)
  from_map elem r ((k, x) ∷ m) =
      let (y, ok) = elem (at_key j r k false).0 x in
      let (m', b) = from_map elem r m in if ok then ((k, y) ∷ m', b) else ((k, y) ∷ m, false)

  unfoldable pub set_each : (A → Value) → HashMap Bytes A → Value → Value
  set_each write [] v = v
  set_each write ((k, x) ∷ m) v = set_each write m (j.set_key v k (write x))

  -- toJson for map-like types.
  unfoldable pub to_map : (A → Value) → HashMap Bytes A → Value
  to_map write m = set_each write m j.null_value

module _ (j : JsonLibrary) where
  open j use {Value, Double}

  -- custom::json2DoubleArray, for an array of as many doubles as `da` has.
  unfoldable pub json_to_double_array : JsonRef j → List Double → List Double × Bool
  json_to_double_array r da =
      if not (array_size j r == to_int32 (length da))
      then (da, false)
      else from_each j (λ e x. to_double j e j.zero_double) r 0 da

  -- custom::doubleArray2Json
  unfoldable pub double_array_to_json : List Double → Value
  double_array_to_json da = write_each j j.of_double 0 da (j.resize j.null_value (length da))
