-- ===== src/Container/HashMap/Laws.antt =====
-- What a lookup in a HashMap sees after each change.
use module_flow.Prelude.{
  ◌+◌, ◌≡◌, refl, Option, none, some, List, [], ◌∷◌, arith, Eq, ◌==◌, if◌then◌else◌, Bool-cases,
  inl, inr, All, subst,
}
use module_flow.Container.HashMap.{
  HashMap, find, valueref, has, insert_one, erase, from_multi_kv, size,
}

module _ {ℓ κ} {K : Type ℓ} {V : Type κ} ⦃e : Eq K⦄ where
  pub find-insert_one :
      (k j : K) (v : V) (m : HashMap K V)
      → find j (insert_one k v m) ≡ (if k == j then some v else find j m)
  unfolding find insert_one
  find-insert_one k j v [] = refl
  find-insert_one k j v ((i, w) ∷ m) =
      ground (arith, e.beq_iff k j, e.beq_iff i k, e.beq_iff i j, find-insert_one k j v m)

  pub valueref-insert_one :
      (k j : K) (v d : V) (m : HashMap K V)
      → valueref (insert_one k v m) j d ≡ (if k == j then v else valueref m j d)
  unfolding valueref
  valueref-insert_one k j v d m = ground (arith, find-insert_one k j v m)

  pub find-erase :
      (k j : K) (m : HashMap K V) → find j (erase k m) ≡ (if k == j then none else find j m)
  unfolding find erase
  find-erase k j [] = ground arith
  find-erase k j ((i, w) ∷ m) =
      ground (arith, e.beq_iff k j, e.beq_iff i k, e.beq_iff i j, find-erase k j m)

  pub erase_idem : (k : K) (m : HashMap K V) → erase k (erase k m) ≡ erase k m
  unfolding erase
  erase_idem k [] = refl
  erase_idem k ((j, v) ∷ m) = ground (arith, erase_idem k m)

  -- Erasing an absent key changes nothing.
  pub erase_absent : (k : K) (m : HashMap K V) → find k m ≡ none → erase k m ≡ m
  unfolding erase find
  erase_absent k [] h = refl
  erase_absent k ((j, v) ∷ m) h = ground (arith, erase_absent k m)

  pub size-insert_one :
      (k : K) (v : V) (m : HashMap K V)
      → size (insert_one k v m) ≡ (if has m k then size m else size m + 1)
  unfolding insert_one has
  size-insert_one k v [] = omega arith
  size-insert_one k v ((j, w) ∷ m) = ground (arith, size-insert_one k v m)

  module _ {μ} (P : K × V → Type μ) where
    pub All-insert_one :
        (k : K) (v : V) (m : HashMap K V) → P (k, v) → All P m → All P (insert_one k v m)
    unfolding insert_one
    All-insert_one k v [] p h = (p, tt)
    All-insert_one k v ((j, w) ∷ m) p h = elim (Bool-cases (j == k)) [
      | inl q ↦ rw (q, (e.beq_iff j k).0 q) (p, h.1)
      | inr q ↦ rw q (h.0, All-insert_one k v m p h.1)
    ]

    pub All-erase : (k : K) (m : HashMap K V) → All P m → All P (erase k m)
    unfolding erase
    All-erase k [] h = tt
    All-erase k ((j, w) ∷ m) h = elim (Bool-cases (j == k)) [
      | inl q ↦ rw q (All-erase k m h.1)
      | inr q ↦ rw q (h.0, All-erase k m h.1)
    ]

    pub All-find : (k : K) (v : V) (m : HashMap K V) → All P m → find k m ≡ some v → P (k, v)
    unfolding find
    All-find k v [] h q = cc
    All-find k v ((j, w) ∷ m) h q = elim (Bool-cases (j == k)) [
      | inl r ↦ subst P (ground (arith, e.beq_iff j k)) h.0
      | inr r ↦ All-find k v m h.1 (ground arith)
    ]

  -- What `from_multi_kv` leaves under a key: the last of its pairs, else what was there.
  abbrev pub last_pair : K → List K → List V → Option V → Option V
  last_pair j [] vs d = d
  last_pair j (k ∷ ks) [] d = d
  last_pair j (k ∷ ks) (v ∷ vs) d = last_pair j ks vs (if k == j then some v else d)

  -- After the constructor from a list of keys and a list of values, a lookup finds the last value
  -- that the lists pair with the key, up to the shorter list, and what the map held before if they
  -- pair none.
  pub find-from_multi_kv :
      (j : K) (ks : List K) (vs : List V) (m : HashMap K V)
      → find j (from_multi_kv ks vs m) ≡ last_pair j ks vs (find j m)
  unfolding from_multi_kv
  find-from_multi_kv j [] vs m = refl
  find-from_multi_kv j (k ∷ ks) [] m = refl
  find-from_multi_kv j (k ∷ ks) (v ∷ vs) m =
      rw (← find-insert_one k j v m) (find-from_multi_kv j ks vs (insert_one k v m))
