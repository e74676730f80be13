-- ===== src/Data/Store/Elements.antt =====
-- data::get without its fuel, and which objects it can reach.
use module_flow.Prelude.{
  ℕ, zero, suc, ◌≡◌, refl, ap, ◌∙◌, some, [], ◌∷◌, ◌<◌, ◌==◌, nat_eq, list_eq, arith, if◌then◌else◌,
  length, take, drop, Option-cases, Bool-cases, inl, inr, ◌≢◌, beq-false, list_beq_iff,
}
use module_flow.Container.HashMap.{valueref}
use module_flow.Data.Json.{Bytes}
use module_flow.Object.Heap.{Addr, null}
use module_flow.Data.Store.{
  Content, other, DataStore, data_list, data_dict, Lookup, pointer, invalid_argument, rfind_dot,
  get_from, get_fuel, get, sub_object, hash_key, dict_object, stoi,
}

pub rfind_dot-lt : (s : Bytes) (n : ℕ) → rfind_dot s ≡ some n → length (take n s) < length s
unfolding rfind_dot
rfind_dot-lt [] n e = cc
rfind_dot-lt (c ∷ s) n e = elim (Option-cases (rfind_dot s)) [
  | inl q ↦ ground arith
  | inr (k, q) ↦ ground (arith, rfind_dot-lt s k q)
]

-- What a path finds behind its last dot.
abbrev pub element : Content → Bytes → Lookup
element other k = pointer null
element (data_list xs) k = if k == hash_key then invalid_argument else pointer null
element (data_dict m) k = if k == hash_key then pointer null else pointer (valueref m k null)

sub_object_lem : (c : Content) (k : Bytes) → sub_object c k ≡ element c k
unfolding sub_object dict_object stoi
sub_object_lem other k = refl
sub_object_lem (data_list xs) k = elim (Bool-cases (list_eq.beq k hash_key)) [
  | inl y ↦ rw ((list_beq_iff k hash_key).0 y)
  | inr w ↦ rw w
]
sub_object_lem (data_dict m) k = elim (Bool-cases (list_eq.beq k hash_key)) [
  | inl y ↦ rw y
  | inr w ↦ rw w
]

module _ (store : DataStore) where
  enough :
      (f g : ℕ) (path : Bytes)
      → length path < f
      → length path < g
      → get_fuel store f path ≡ get_fuel store g path
  unfolding get_fuel
  enough zero g path h k = elim h [ ]
  enough (suc f) zero path h k = elim k [ ]
  enough (suc f) (suc g) path h k = elim (Option-cases (rfind_dot path)) [
    | inl e ↦ rw (e, get_fuel)
    | inr (n, e) ↦ rw (
      e,
      get_fuel,
      enough f g (take n path) (omega (arith, rfind_dot-lt path n e))
          (omega (arith, rfind_dot-lt path n e)),
    )
  ]

  returns :
      (f : ℕ) (path : Bytes) → length path < f → (l : Lookup) × (get_fuel store f path ≡ some l)
  unfolding get_fuel
  returns zero path h = elim h [ ]
  returns (suc f) path h = elim (Bool-cases (valueref store.entries path null == null)) [
    | inr z ↦ (pointer (valueref store.entries path null), rw z)
    | inl y ↦ elim (Option-cases (rfind_dot path)) [
      | inl e ↦ (pointer null, rw (y, e, get_fuel))
      | inr (n, e) ↦
          let (l, r) = returns f (take n path) (omega (arith, rfind_dot-lt path n e)) in
          (
            if n == 0 then pointer null else get_from store l (drop (suc n) path),
            rw (y, e, get_fuel, r) (ground arith),
          )
    ]
  ]

  -- `get` comes to an end for every path: with a pointer, or with the exception of std::stoi.
  pub get_total : (path : Bytes) → (l : Lookup) × (get store path ≡ some l)
  unfolding get
  get_total path = returns (suc (length path)) path (omega arith)

  -- The equation of `get` for a path that is no key of the manager and whose last dot is not its
  -- first character.
  pub get_step :
      (path : Bytes) (n : ℕ) (l : Lookup)
      → valueref store.entries path null ≡ null
      → rfind_dot path ≡ some n
      → n ≢ 0
      → get store (take n path) ≡ some l
      → get store path ≡ some (get_from store l (drop (suc n) path))
  unfolding get get_fuel
  get_step path n l d e z r = rw (
    e,
    get_fuel,
    d,
    beq-false n 0 z,
    enough (length path) (suc (length (take n path))) (take n path) (rfind_dot-lt path n e)
        (omega arith),
    r,
  )

  -- The same, where the part before the last dot leads to an object.
  pub get-element :
      (path : Bytes) (n : ℕ) (d : Addr)
      → valueref store.entries path null ≡ null
      → rfind_dot path ≡ some n
      → n ≢ 0
      → get store (take n path) ≡ some (pointer d)
      → d ≢ null
      → get store path ≡ some (element (store.content d) (drop (suc n) path))
  unfolding get_from
  get-element path n d k e z r nd =
      get_step path n (pointer d) k e z r
      ∙ rw (beq-false d null nd) (ap some (sub_object_lem (store.content d) (drop (suc n) path)))
