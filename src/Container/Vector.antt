-- ===== src/Container/Vector.antt =====
-- container::Vector and container::List of include/basic/base.h: the members that
-- PrivateTContainerBase adds to a sequence.
pub mod Laws
mod Tests
use module_flow.Prelude.{
  ℕ, zero, suc, Bool, true, false, Option, none, some, List, [], ◌∷◌, ◌++◌, if◌then◌else◌, length,
  take, drop, ℤ, pos, negsuc, ltb_ℤ, leb, not, ◌&&◌, to_int32, get_elem?,
}

module _ {ℓ} {A : Type ℓ} where
  unfoldable pub size_int : List A → ℤ
  unfolding to_int32
  size_int xs = to_int32 (length xs)

  unfoldable pub has : List A → ℤ → Bool
  unfolding size_int
  has xs index = not (ltb_ℤ index (pos 0)) && ltb_ℤ index (size_int xs)

  -- operator[], `none` where there is no such element and its behaviour is undefined
  abbrev pub element : List A → ℤ → Option A
  element xs (pos i) = get_elem? xs i
  element xs (negsuc i) = none

  -- value(index, default_value), and value(index) for the default that ValueT() is
  unfoldable pub value : List A → ℤ → A → Option A
  unfolding has
  value xs index d = if has xs index then element xs index else some d

  -- insertOne, `none` for an index for which there is no iterator
  unfoldable pub insert_one : ℤ → A → List A → Option (List A)
  insert_one (negsuc n) a xs = none
  insert_one (pos n) a xs = if leb n (length xs) then some (take n xs ++ a ∷ drop n xs) else none

  unfoldable pub prepend : A → List A → List A
  prepend a xs = a ∷ xs

  unfoldable pub append : A → List A → List A
  append a xs = xs ++ a ∷ []

  -- foreach, for a function that changes a state
  unfoldable pub for_each {κ} : {S : Type κ} → (A → S → S) → List A → S → S
  for_each func [] s = s
  for_each func (x ∷ xs) s = for_each func xs (func x s)
