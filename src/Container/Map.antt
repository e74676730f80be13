-- ===== src/Container/Map.antt =====
-- container::Map of include/basic/base.h: std::map with the members that PrivateKVContainerBase
-- adds. A map is the list of its pairs in the order of the keys, in which it is iterated; kyes and
-- values are those of HashMap.
pub mod Laws
mod Tests
use module_flow.Prelude.{
  ◌≡◌, ◌<◌, refl, Bool, true, false, Option, none, some, List, [], ◌∷◌, if◌then◌else◌, ℕ, ltb,
  arith, ltb→lt, lt→ltb,
}

-- std::less of a key type.
pub record Order {ℓ} (K : Type ℓ) : Type ℓ where
  pub less : K → K → Bool
  pub irreflexive : (a : K) → less a a ≡ false
  pub transitive : (a b c : K) → less a b ≡ true → less b c ≡ true → less a c ≡ true
  pub total : (a b : K) → less a b ≡ false → less b a ≡ false → a ≡ b

pub ltb_self : (a : ℕ) → ltb a a ≡ false
ltb_self a = ground arith

pub ltb_trans : (a b c : ℕ) → ltb a b ≡ true → ltb b c ≡ true → ltb a c ≡ true
ltb_trans a b c p q = ground arith

pub ltb_total : (a b : ℕ) → ltb a b ≡ false → ltb b a ≡ false → a ≡ b
ltb_total a b p q = ground arith

instance abbrev pub nat_order : Order ℕ
nat_order = record { less = ltb; irreflexive = ltb_self; transitive = ltb_trans; total = ltb_total }

abbrev pub Map {ℓ κ} : Type ℓ → Type κ → Type (ℓ ⊔ κ)
Map K V = List (K × V)

module _ {ℓ κ} {K : Type ℓ} {V : Type κ} ⦃order : Order K⦄ where
  -- The value under a key, `none` for `end()`.
  unfoldable pub find : K → Map K V → Option V
  find k [] = none
  find k ((j, w) ∷ m) =
      let rest = find k m in
      if order.less k j then none else if order.less j k then rest else some w

  unfoldable pub has : Map K V → K → Bool
  unfolding find
  has m k = elim (find k m) [ none ↦ false | some w ↦ true ]

  -- `valueref(key, d)`; `value(key)` is the case where `d` is the value type's default.
  unfoldable pub valueref : Map K V → K → V → V
  unfolding find
  valueref m k d = elim (find k m) [ none ↦ d | some w ↦ w ]

  -- `operator[](key) = value`.
  unfoldable pub insert_one : K → V → Map K V → Map K V
  insert_one k v [] = (k, v) ∷ []
  insert_one k v ((j, w) ∷ m) =
      let rest = insert_one k v m in
      if order.less k j
      then (k, v) ∷ (j, w) ∷ m
      else if order.less j k
      then (j, w) ∷ rest
      else (j, v) ∷ m

  -- The loop stops at the shorter of the two lists.
  unfoldable pub from_multi_kv : List K → List V → Map K V → Map K V
  unfolding insert_one
  from_multi_kv [] vs m = m
  from_multi_kv (k ∷ ks) [] m = m
  from_multi_kv (k ∷ ks) (v ∷ vs) m = from_multi_kv ks vs (insert_one k v m)
