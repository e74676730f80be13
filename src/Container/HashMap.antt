-- ===== src/Container/HashMap.antt =====
-- container::HashMap of include/basic/base.h: std::unordered_map with the members that
-- PrivateKVContainerBase adds. A map is the list of its pairs in the order in which it is iterated.
-- Where a new key goes is the container's choice, here the end; std::unordered_map may also change the
-- order of the other keys then, which the list does not.
pub mod Laws
pub mod Keys
mod Tests
use module_flow.Prelude.{
  ℕ, Bool, true, false, Option, none, some, List, [], ◌∷◌, Eq, ◌==◌, if◌then◌else◌, length, ℤ,
  to_int32,
}

abbrev pub HashMap {ℓ κ} : Type ℓ → Type κ → Type (ℓ ⊔ κ)
HashMap K V = List (K × V)

module _ {ℓ κ} {K : Type ℓ} {V : Type κ} where
  -- `size()`.
  abbrev pub size : HashMap K V → ℕ
  size m = length m

  unfoldable pub size_int : HashMap K V → ℤ
  size_int m = to_int32 (size m)

  -- The keys in the order of iteration.
  unfoldable pub kyes : HashMap K V → List K
  kyes [] = []
  kyes ((k, v) ∷ m) = k ∷ kyes m

  unfoldable pub values : HashMap K V → List V
  values [] = []
  values ((k, v) ∷ m) = v ∷ values m

module _ {ℓ κ} {K : Type ℓ} {V : Type κ} ⦃e : Eq K⦄ where
  -- The value under a key, `none` for `end()`.
  unfoldable pub find : K → HashMap K V → Option V
  find k [] = none
  find k ((j, v) ∷ m) = if j == k then some v else find k m

  unfoldable pub has : HashMap K V → K → Bool
  unfolding find
  has m k = elim (find k m) [ none ↦ false | some _ ↦ true ]

  -- `valueref(key, d)`; `value(key)` is the case where `d` is the value type's default.
  unfoldable pub valueref : HashMap K V → K → V → V
  unfolding find
  valueref m k d = elim (find k m) [ none ↦ d | some v ↦ v ]

  -- `operator[](key) = value`.
  unfoldable pub insert_one : K → V → HashMap K V → HashMap K V
  insert_one k v [] = (k, v) ∷ []
  insert_one k v ((j, w) ∷ m) = if j == k then (j, v) ∷ m else (j, w) ∷ insert_one k v m

  -- `erase(key)` removes what stands under the key; it counts 1 where `has` held before.
  unfoldable pub erase : K → HashMap K V → HashMap K V
  erase k [] = []
  erase k ((j, v) ∷ m) = if j == k then erase k m else (j, v) ∷ erase k m

  -- The loop stops at the shorter of the two lists.
  unfoldable pub from_multi_kv : List K → List V → HashMap K V → HashMap K V
  unfolding insert_one
  from_multi_kv [] vs m = m
  from_multi_kv (k ∷ ks) [] m = m
  from_multi_kv (k ∷ ks) (v ∷ vs) m = from_multi_kv ks vs (insert_one k v m)
