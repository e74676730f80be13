-- ===== src/Data/Objects/Lists.antt =====
-- A DataList that is read from a JSON array.
use module_flow.Prelude.{
  ℕ, zero, suc, ◌^◌, ◌≡◌, refl, ap, ◌∙◌, Bool, true, false, Option, none, some, List, get_elem?,
  ◌≤◌, [], ◌∷◌, ◌<◌, arith, ◌==◌, nat_eq, length, pos, int_eq, to_int32_small, Bool-cases, inl, inr,
  ltb,
}
use module_flow.Data.Json.{JsonLibrary}
use module_flow.Data.Reference.{JsonRef, value, array_size, at}
use module_flow.Data.Convert.{from_each, from_list, resize_list}
use module_flow.Data.Objects.{DataObject, object_from_json, json_holder}

module _ {j : JsonLibrary} {V : Type 0} (to_json : V → j.Value)
    (from_json : JsonRef j → V → V × Bool) where
  abbrev pub element : JsonRef j → Option (DataObject j V) → Option (DataObject j V) × Bool
  element = object_from_json to_json from_json

  element-null : (r : JsonRef j) → element r none ≡ (none, false)
  unfolding object_from_json json_holder
  element-null r = refl

  length-from_each :
      (r : JsonRef j) (i : ℕ) (xs : List (Option (DataObject j V)))
      → length (from_each j element r i xs).0 ≡ length xs
  unfolding from_each
  length-from_each r i [] = refl
  length-from_each r i (x ∷ xs) =
      let ok = (element (at j r (pos i)).0 x).1 in
      elim (Bool-cases ok) [ inl y ↦ rw y (ap suc (length-from_each r (suc i) xs)) | inr n ↦ rw n ]

  -- The null pointers with which a list is filled up do not read.
  from_each-resize_list :
      (r : JsonRef j) (i n : ℕ) (xs : List (Option (DataObject j V)))
      → length xs < n
      → (from_each j element r i (resize_list n none xs)).1 ≡ false
  unfolding from_each resize_list
  from_each-resize_list r i zero xs h = absurd (omega arith)
  from_each-resize_list r i (suc n) [] h = rw (element-null (at j r (pos i)).0)
  from_each-resize_list r i (suc n) (x ∷ xs) h =
      let ok = (element (at j r (pos i)).0 x).1 in
      elim (Bool-cases ok) [
        | inl y ↦ rw y (from_each-resize_list r (suc i) n xs (omega arith))
        | inr z ↦ rw z
      ]

  -- What is null before the list is read is null afterwards.
  get_elem-from_each :
      (r : JsonRef j) (i k : ℕ) (xs : List (Option (DataObject j V)))
      → get_elem? xs k ≡ some none
      → get_elem? (from_each j element r i xs).0 k ≡ some none
  unfolding from_each
  get_elem-from_each r i k [] e = e
  get_elem-from_each r i zero (x ∷ xs) e =
      let null : x ≡ none = cc in rw (null, element-null (at j r (pos i)).0) refl
  get_elem-from_each r i (suc k) (x ∷ xs) e =
      let ok = (element (at j r (pos i)).0 x).1 in
      elim (Bool-cases ok) [ inl y ↦ rw y (get_elem-from_each r (suc i) k xs e) | inr n ↦ rw n e ]

  get_elem-resize_list :
      (n k : ℕ) (xs : List (Option (DataObject j V)))
      → length xs ≤ k
      → k < n
      → get_elem? (resize_list n none xs) k ≡ some none
  unfolding resize_list
  get_elem-resize_list zero k xs l h = absurd (omega arith)
  get_elem-resize_list (suc n) zero [] l h = refl
  get_elem-resize_list (suc n) (suc k) [] l h =
      get_elem-resize_list n k [] (omega arith) (omega arith)
  get_elem-resize_list (suc n) zero (x ∷ xs) l h = absurd (omega arith)
  get_elem-resize_list (suc n) (suc k) (x ∷ xs) l h =
      get_elem-resize_list n k xs (omega arith) (omega arith)

  length-resize_list :
      (n : ℕ) (xs : List (Option (DataObject j V))) → length (resize_list n none xs) ≡ n
  unfolding resize_list
  length-resize_list zero xs = refl
  length-resize_list (suc n) [] = ap suc (length-resize_list n [])
  length-resize_list (suc n) (x ∷ xs) = ap suc (length-resize_list n xs)

  -- An array with more elements than the list of data objects, and fewer than 2^31, is not read: the
  -- list is made as long as the array, and each place that it did not have before holds a null pointer
  -- afterwards; the result is failure.
  pub from_list-longer :
      (r : JsonRef j) (xs : List (Option (DataObject j V))) (k : ℕ)
      → j.is_array (value j r) ≡ true
      → length xs < j.size (value j r)
      → j.size (value j r) < 2 ^ 31
      → length xs ≤ k
      → k < j.size (value j r)
      → (length (from_list j element true none r xs).0 ≡ j.size (value j r))
        × (get_elem? (from_list j element true none r xs).0 k ≡ some none)
        × ((from_list j element true none r xs).1 ≡ false)
  unfolding from_list
  from_list-longer r xs k a l s b m =
      rw (size, to_int32_small (length xs) (omega (arith, l, s)), never, apart)
        (
          length-from_each r 0 _ ∙ length-resize_list (j.size (value j r)) xs,
          get_elem-from_each r 0 k _ (get_elem-resize_list (j.size (value j r)) k xs b m),
          from_each-resize_list r 0 (j.size (value j r)) xs l,
        )
    where
      size : array_size j r ≡ pos (j.size (value j r))
      size = unfold array_size in rw a (to_int32_small (j.size (value j r)) s)

      never : ltb (j.size (value j r)) 0 ≡ false
      never = ground arith

      apart : (j.size (value j r) == length xs) ≡ false
      apart = ground arith
