-- ===== src/Container/HashMap/Keys.antt =====
-- Maps with distinct keys, and the operations on them.
use module_flow.Prelude.{◌≡◌, refl, none, List, [], ◌∷◌, arith, Eq}
use module_flow.Container.HashMap.{HashMap, find, insert_one, erase, from_multi_kv}
use module_flow.Container.HashMap.Laws.{find-insert_one, find-erase}

module _ {ℓ κ} {K : Type ℓ} {V : Type κ} ⦃e : Eq K⦄ where
  -- No key stands twice.
  abbrev pub Distinct : HashMap K V → Type κ
  Distinct [] = Unit
  Distinct ((k, v) ∷ m) = (find k m ≡ none) × Distinct m

  pub insert_one-Distinct :
      (k : K) (v : V) (m : HashMap K V) → Distinct m → Distinct (insert_one k v m)
  unfolding insert_one
  insert_one-Distinct k v [] d = (unfold find in refl, tt)
  insert_one-Distinct k v ((j, w) ∷ m) d =
      ground (
        arith,
        e.beq_iff j k,
        find-insert_one k j v m,
        e.beq_iff k j,
        insert_one-Distinct k v m d.1,
      )

  pub erase-Distinct : (k : K) (m : HashMap K V) → Distinct m → Distinct (erase k m)
  unfolding erase
  erase-Distinct k [] d = tt
  erase-Distinct k ((j, w) ∷ m) d = ground (arith, find-erase k j m, erase-Distinct k m d.1)

  pub from_multi_kv-Distinct :
      (ks : List K) (vs : List V) (m : HashMap K V) → Distinct m → Distinct (from_multi_kv ks vs m)
  unfolding from_multi_kv
  from_multi_kv-Distinct [] vs m d = d
  from_multi_kv-Distinct (k ∷ ks) [] m d = d
  from_multi_kv-Distinct (k ∷ ks) (v ∷ vs) m d =
      from_multi_kv-Distinct ks vs (insert_one k v m) (insert_one-Distinct k v m d)
