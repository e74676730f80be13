-- ===== src/Container/Map/Laws.antt =====
-- A Map keeps its keys in order, and is looked up like a HashMap.
use module_flow.Prelude.{
  ◌≡◌, refl, sym, ◌∙◌, true, some, List, [], ◌∷◌, if◌then◌else◌, All, Eq, ◌==◌, arith, Bool-cases,
  inl, inr,
}
use module_flow.Container.HashMap.{HashMap}
use module_flow.Container.HashMap as Hash
use module_flow.Container.HashMap.Laws.{last_pair, find-from_multi_kv}
use module_flow.Container.Map.{Order, Map, find, insert_one, from_multi_kv}

module _ {ℓ κ} {K : Type ℓ} {V : Type κ} ⦃e : Eq K⦄ ⦃order : Order K⦄ where
  -- The key comes before those of the map.
  abbrev pub IsBefore : K → Map K V → Type 0
  IsBefore k m = All (λ p. order.less k p.0 ≡ true) m

  -- The keys strictly increase.
  abbrev pub IsSorted : Map K V → Type 0
  IsSorted [] = Unit
  IsSorted ((k, v) ∷ m) = IsBefore k m × IsSorted m

  IsBefore-earlier : (k j : K) (m : Map K V) → order.less k j ≡ true → IsBefore j m → IsBefore k m
  IsBefore-earlier k j [] l b = tt
  IsBefore-earlier k j ((i, w) ∷ m) l b =
      (order.transitive k j i l b.0, IsBefore-earlier k j m l b.1)

  insert_one-IsBefore :
      (i k : K) (v : V) (m : Map K V)
      → order.less i k ≡ true
      → IsBefore i m
      → IsBefore i (insert_one k v m)
  unfolding insert_one
  insert_one-IsBefore i k v [] l b = (l, tt)
  insert_one-IsBefore i k v ((j, w) ∷ m) l b = ground (arith, insert_one-IsBefore i k v m l b.1)

  insert_one-IsSorted : (k : K) (v : V) (m : Map K V) → IsSorted m → IsSorted (insert_one k v m)
  unfolding insert_one
  insert_one-IsSorted k v [] s = (tt, tt)
  insert_one-IsSorted k v ((j, w) ∷ m) s = elim (Bool-cases (order.less k j)) [
    | inl y ↦ rw y ((y, IsBefore-earlier k j m y s.0), s)
    | inr n ↦ rw n (elim (Bool-cases (order.less j k)) [
      | inl y ↦ rw y (insert_one-IsBefore j k v m y s.0, insert_one-IsSorted k v m s.1)
      | inr z ↦ rw z s
    ])
  ]

  find-insert_one :
      (k j : K) (v : V) (m : Map K V)
      → find j (insert_one k v m) ≡ (if k == j then some v else find j m)
  unfolding find insert_one
  find-insert_one k j v [] = ground (arith, e.beq_iff k j, order.irreflexive j, order.total k j)
  find-insert_one k j v ((i, w) ∷ m) = ground (
    arith,
    e.beq_iff k j,
    order.irreflexive j,
    order.irreflexive i,
    order.total k j,
    order.total k i,
    order.total i j,
    order.transitive j k i,
    order.transitive i k j,
    find-insert_one k j v m,
  )

  find-from_multi_kv-last :
      (j : K) (ks : List K) (vs : List V) (m : Map K V)
      → find j (from_multi_kv ks vs m) ≡ last_pair j ks vs (find j m)
  unfolding from_multi_kv
  find-from_multi_kv-last j [] vs m = refl
  find-from_multi_kv-last j (k ∷ ks) [] m = refl
  find-from_multi_kv-last j (k ∷ ks) (v ∷ vs) m =
      rw (← find-insert_one k j v m) (find-from_multi_kv-last j ks vs (insert_one k v m))

  from_multi_kv-IsSorted :
      (ks : List K) (vs : List V) (m : Map K V) → IsSorted m → IsSorted (from_multi_kv ks vs m)
  unfolding from_multi_kv
  from_multi_kv-IsSorted [] vs m s = s
  from_multi_kv-IsSorted (k ∷ ks) [] m s = s
  from_multi_kv-IsSorted (k ∷ ks) (v ∷ vs) m s =
      from_multi_kv-IsSorted ks vs (insert_one k v m) (insert_one-IsSorted k v m s)

  -- A Map and a HashMap that are made from the same lists of keys and values give the same result for
  -- every key, and the keys of the Map strictly increase.
  pub map_as_hash_map :
      (ks : List K) (vs : List V)
      → ((j : K) → find j (from_multi_kv ks vs []) ≡ Hash.find j (Hash.from_multi_kv ks vs []))
        × IsSorted (from_multi_kv ks vs [])
  unfolding find Hash.find
  map_as_hash_map ks vs = (
    λ j. find-from_multi_kv-last j ks vs [] ∙ sym (find-from_multi_kv j ks vs []),
    from_multi_kv-IsSorted ks vs [] tt,
  )
