-- ===== src/Data/Store/Reach.antt =====
-- Which objects data::get finds: those that lie behind entries of dictionaries.
use module_flow.Prelude.{
  ℕ, zero, suc, ◌≡◌, refl, sym, ap, ◌∙◌, subst, true, none, some, [], ◌∷◌, ◌++◌, ◌<◌, ◌==◌, nat_eq,
  list_eq, arith, length, take, drop, Option-cases, Bool-cases, inl, inr, ◌≢◌, ◌↔◌, beq-false,
  nat_beq_iff, list_beq_iff,
}
use module_flow.Container.HashMap.{HashMap, valueref}
use module_flow.Data.Json.{Bytes}
use module_flow.Object.Heap.{Addr, null}
use module_flow.Data.Store.{
  Content, other, DataStore, data_list, data_dict, Lookup, pointer, invalid_argument, rfind_dot,
  get_from, get_fuel, get, hash_key,
}
use module_flow.Data.Store.Dots.{
  NoDot, rfind_dot-append, rfind_dot-split, take-length, drop-length, take-ne-nil,
}
use module_flow.Data.Store.Elements.{rfind_dot-lt, element, get_total, get_step, get-element}

pointer-inj : (a b : Addr) → some (pointer a) ≡ some (pointer b) → a ≡ b
pointer-inj a b e = cc

-- An entry is found in dictionaries alone.
element-pointer :
    (c : Content) (k : Bytes) (a : Addr)
    → element c k ≡ pointer a
    → a ≢ null
    → (m : HashMap Bytes Addr) × (c ≡ data_dict m) × (k ≢ hash_key) × (valueref m k null ≡ a)
element-pointer other k a e n = absurd (n (cc))
element-pointer (data_list xs) k a e n = elim (Bool-cases (list_eq.beq k hash_key)) [
  | inl y ↦ absurd (ground arith)
  | inr z ↦ absurd (n (ground arith))
]
element-pointer (data_dict m) k a e n = elim (Bool-cases (list_eq.beq k hash_key)) [
  | inl y ↦ absurd (n (ground arith))
  | inr z ↦ (m, refl, (λ q. ground (arith, list_beq_iff k hash_key)), ground arith)
]

module _ (store : DataStore) where
  -- The objects that a path leads to: one that the manager has under the path, or, where it has none,
  -- the entry that a dictionary, to which what stands before the last dot leads, has under what stands
  -- behind it, unless this is `#`.
  pub data Reaches : Bytes → Addr → Type 0 where
    registered :
        (path : Bytes) (a : Addr) → valueref store.entries path null ≡ a → a ≢ null → Reaches path a
    entry :
        (p k : Bytes) (d : Addr) (m : HashMap Bytes Addr) (a : Addr)
        → valueref store.entries (p ++ b'.' ∷ k) null ≡ null
        → p ≢ []
        → NoDot k
        → Reaches p d
        → d ≢ null
        → store.content d ≡ data_dict m
        → k ≢ hash_key
        → valueref m k null ≡ a
        → Reaches (p ++ b'.' ∷ k) a

  get_registered :
      (path : Bytes) (a : Addr)
      → valueref store.entries path null ≡ a
      → a ≢ null
      → get store path ≡ some (pointer a)
  unfolding get get_fuel
  get_registered path a e n = rw (e, beq-false a null n) refl

  Reaches-get : {path : Bytes} {a : Addr} → Reaches path a → get store path ≡ some (pointer a)
  Reaches-get (registered path a e n) = get_registered path a e n
  Reaches-get (entry p k d m a e np nd r dn c nh v) =
      get-element store (p ++ b'.' ∷ k) (length p) d e (rfind_dot-append p k nd) (not_empty p np)
        (rw (take-length p (b'.' ∷ k)) (Reaches-get r)) dn
      ∙ rw (drop-length p k b'.', c, beq-false k hash_key nh, v) refl
    where
      not_empty : (q : Bytes) → q ≢ [] → length q ≢ 0
      not_empty [] n z = n refl
      not_empty (x ∷ q) n z = ground arith

  get_undotted :
      (path : Bytes)
      → valueref store.entries path null ≡ null
      → rfind_dot path ≡ none
      → get store path ≡ some (pointer null)
  unfolding get get_fuel
  get_undotted path e r = rw (e, r, get_fuel) refl

  get_leading :
      (path : Bytes)
      → valueref store.entries path null ≡ null
      → rfind_dot path ≡ some 0
      → get store path ≡ some (pointer null)
  unfolding get get_fuel
  get_leading path e r = rw (e, r, get_fuel) refl

  -- What a path finds behind its last dot, by what stands before the dot finds.
  get_behind :
      (path : Bytes) (i : ℕ) (a : Addr) (l : Lookup)
      → valueref store.entries path null ≡ null
      → rfind_dot path ≡ some i
      → i ≢ 0
      → get store (take i path) ≡ some l
      → get store path ≡ some (pointer a)
      → a ≢ null
      → (d : Addr) × (l ≡ pointer d)
        × (d ≢ null)
        × (element (store.content d) (drop (suc i) path) ≡ pointer a)
  unfolding get_from
  get_behind path i a invalid_argument z q p t e n =
      let g = get_step store path i invalid_argument z q p t in absurd (n (cc))
  get_behind path i a (pointer d) z q p t e n = elim (Bool-cases (d == null)) [
    | inl y ↦
        let g = get_step store path i (pointer d) z q p t in
        absurd (n (pointer-inj a null (sym e ∙ g ∙ rw y refl)))
    | inr w ↦
        let ne : d ≢ null = λ v. ground (arith, nat_beq_iff d null) in
        let g = get-element store path i d z q p t ne in (d, refl, ne, cc)
  ]

  get-Reaches_behind :
      (path : Bytes) (i : ℕ) (a : Addr)
      → valueref store.entries path null ≡ null
      → rfind_dot path ≡ some i
      → i ≢ 0
      → ((d : Addr)
          → get store (take i path) ≡ some (pointer d)
          → d ≢ null
          → Reaches (take i path) d)
      → get store path ≡ some (pointer a)
      → a ≢ null
      → Reaches path a
  get-Reaches_behind path i a z q p before e n =
      let (l, t) = get_total store (take i path) in
      let (d, ld, dn, found) = get_behind path i a l z q p t e n in
      let (m, c, nh, v) = element-pointer (store.content d) (drop (suc i) path) a found n in
      let (same, nd) = rfind_dot-split path i q in
      subst (λ s. Reaches s a) (sym same)
        (entry (take i path) (drop (suc i) path) d m a
          (sym (ap (λ s. valueref store.entries s null) same) ∙ z) (take-ne-nil path i same p) nd
          (before d (t ∙ ap some ld) dn) dn c nh v)

  get-Reaches_within :
      (f : ℕ) (path : Bytes) (a : Addr)
      → length path < f
      → get store path ≡ some (pointer a)
      → a ≢ null
      → Reaches path a
  get-Reaches_within zero path a h e n = absurd (omega arith)
  get-Reaches_within (suc f) path a h e n =
      elim (Bool-cases (valueref store.entries path null == null)) [
        | inr z ↦
            let v = valueref store.entries path null in
            let ne : v ≢ null = λ w. ground (arith, nat_beq_iff v null) in
            registered path a (pointer-inj v a (sym (get_registered path v refl ne) ∙ e)) n
        | inl y ↦ elim (Option-cases (rfind_dot path)) [
          | inl q ↦ absurd (n (pointer-inj a null (sym e ∙ get_undotted path (unregistered y) q)))
          | inr (i, q) ↦ elim (Bool-cases (i == 0)) [
            | inl o ↦
                let first : i ≡ 0 = (nat_beq_iff i 0).0 o in
                absurd (
                  n (
                    pointer-inj a null
                      (sym e ∙ get_leading path (unregistered y) (q ∙ ap some first))))
            | inr o ↦
                get-Reaches_behind path i a (unregistered y) q
                  (λ w. ground (arith, nat_beq_iff i 0))
                  (λ d t dn.
                    get-Reaches_within f (take i path) d (omega (arith, rfind_dot-lt path i q)) t
                      dn)
                  e n
          ]
        ]
      ]
    where
      unregistered :
          (valueref store.entries path null == null) ≡ true
          → valueref store.entries path null ≡ null
      unregistered y = (nat_beq_iff (valueref store.entries path null) null).0 y

  -- For every store and path, data::get returns the pointer to an object, not null, exactly if the path
  -- leads to it: the manager has it under the path; or has nothing there, and what stands before the
  -- last dot of the path is not empty and leads to a dictionary, which has the object under what stands
  -- behind the dot, and that is not `#`. So no element of a list is ever found.
  pub get-Reaches :
      (path : Bytes) (a : Addr) → a ≢ null → (get store path ≡ some (pointer a) ↔ Reaches path a)
  get-Reaches path a n =
      ((λ e. get-Reaches_within (suc (length path)) path a (omega arith) e n), Reaches-get)
