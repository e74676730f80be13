-- ===== src/Data/Objects/Raw/Laws.antt =====
-- What is found in a DataList that was made of types, and in a DataDict that was made of a value.
use module_flow.Prelude.{
  ℕ, zero, suc, ◌^◌, ◌≡◌, refl, sym, ap, ◌∙◌, Option, none, some, List, [], ◌∷◌, ◌++◌, ◌<◌, map,
  append_assoc, append-nil, arith, nat_eq, list_eq, length, get_elem?, pos, beq_self, lt→ltb,
}
use module_flow.Container.Vector.{append}
use module_flow.Container.Vector.Laws.{value_lem}
use module_flow.Data.Json.{JsonLibrary}
use module_flow.Data.Objects.{DataObject, cast_standard, is_standard}
use module_flow.Data.Objects.Raw.{list_get, list_get_t, make_empty_ptr, append_empty, from_types}

module _ {A B : Type 0} (f : A → B) where
  length-map : (xs : List A) → length (map f xs) ≡ length xs
  length-map [] = refl
  length-map (x ∷ xs) = ap suc (length-map xs)

  get_elem?-map :
      (xs : List A) (i : ℕ) (x : A)
      → get_elem? xs i ≡ some x
      → (i < length xs) × (get_elem? (map f xs) i ≡ some (f x))
  get_elem?-map [] i x e = cc
  get_elem?-map (y ∷ ys) zero x e = (omega arith, ground arith)
  get_elem?-map (y ∷ ys) (suc i) x e = let (l, g) = get_elem?-map ys i x e in (omega (arith, l), g)

module _ {j : JsonLibrary} {V : Type 0} (initial : ℕ → V) where
  append_empty-map :
      (ts : List ℕ) (xs : List (Option (DataObject j V)))
      → append_empty initial ts xs ≡ xs ++ map (make_empty_ptr initial) ts
  unfolding append_empty append
  append_empty-map [] xs = sym (append-nil xs)
  append_empty-map (t ∷ ts) xs =
      append_empty-map ts (xs ++ make_empty_ptr initial t ∷ [])
      ∙ append_assoc xs (make_empty_ptr initial t ∷ []) (map (make_empty_ptr initial) ts)

  -- from_raw of fewer than 2^31 types: at the place of a type, getDataT of this type finds a new object
  -- with the value that the type starts with.
  pub list_get_t-from_types :
      (type_of : V → ℕ)
      → ((T : ℕ) → type_of (initial T) ≡ T)
      → (ts : List ℕ) (i T : ℕ) → length ts < 2 ^ 31
      → get_elem? ts i ≡ some T
      → list_get_t type_of T (from_types {j = j} initial ts) (pos i)
        ≡ some (make_empty_ptr initial T)
  unfolding list_get_t list_get from_types cast_standard is_standard make_empty_ptr
  list_get_t-from_types type_of typed ts i T h e =
      let (l, g) = get_elem?-map (make_empty_ptr {j = j} initial) ts i T e in
      let size = length-map (make_empty_ptr {j = j} initial) ts in
      rw
        (
          append_empty-map ts [],
          list_get_t,
          list_get,
          value_lem (map (make_empty_ptr {j = j} initial) ts) i none (omega (arith, h, size)),
          lt→ltb i (length (map (make_empty_ptr {j = j} initial) ts)) (omega (arith, l, size)),
          g,
          typed T,
          beq_self T,
        )
        refl
