-- ===== src/Data/Reference/Path.antt =====
-- `get` against its meaning: the path is split at its dots, and followed member by member.
use module_flow.Prelude.{
  ℕ, zero, suc, ◌≡◌, refl, ap, ◌∙◌, Bool, true, false, none, some, List, [], ◌∷◌, ◌++◌, ◌<◌, ◌==◌,
  nat_eq, arith, if◌then◌else◌, length, take, drop, Option-cases, Bool-cases, inl, inr, All,
}
use module_flow.Data.Json.{Bytes, JsonLibrary}
use module_flow.Data.Reference.{find_dot, JsonRef, global_empty, value, at_key, get_fuel, get}

-- The first part of a path, and the parts behind its dots.
unfoldable pub split : Bytes → Bytes × List Bytes
split [] = ([], [])
split (c ∷ s) = let (k, ks) = split s in if c == b'.' then ([], k ∷ ks) else (c ∷ k, ks)

unfoldable pub join : Bytes → List Bytes → Bytes
join k [] = k
join k (l ∷ ks) = k ++ (b'.' ∷ join l ks)

split-no_dot : (s : Bytes) → find_dot s ≡ none → split s ≡ (s, [])
unfolding find_dot split
split-no_dot [] e = refl
split-no_dot (c ∷ s) e = ground (arith, split-no_dot s)

split-dot :
    (s : Bytes) (n : ℕ)
    → find_dot s ≡ some n
    → split s ≡ (take n s, (split (drop (suc n) s)).0 ∷ (split (drop (suc n) s)).1)
unfolding find_dot split
split-dot [] n e = cc
split-dot (c ∷ s) n e = elim (Bool-cases (c == b'.')) [
  | inl y ↦ ground arith
  | inr z ↦ elim (Option-cases (find_dot s)) [
    | inl q ↦ ground arith
    | inr (k, q) ↦ ground (arith, split-dot s k q)
  ]
]

length-drop-lt : (s : Bytes) (n : ℕ) → find_dot s ≡ some n → length (drop (suc n) s) < length s
unfolding find_dot
length-drop-lt [] n e = cc
length-drop-lt (c ∷ s) n e = elim (Bool-cases (c == b'.')) [
  | inl y ↦ ground arith
  | inr z ↦ elim (Option-cases (find_dot s)) [
    | inl q ↦ ground arith
    | inr (k, q) ↦ ground (arith, length-drop-lt s k q)
  ]
]

abbrev pub NoDot : Bytes → Type 0
NoDot s = find_dot s ≡ none

split-append : (k s : Bytes) → NoDot k → split (k ++ (b'.' ∷ s)) ≡ (k, (split s).0 ∷ (split s).1)
unfolding find_dot split
split-append [] s n = refl
split-append (c ∷ k) s n = elim (Bool-cases (c == b'.')) [
  | inl y ↦ ground arith
  | inr z ↦ elim (Option-cases (find_dot k)) [
    | inl q ↦ ground (arith, split-append k s q)
    | inr (i, q) ↦ ground arith
  ]
]

pub split-join :
    (k : Bytes) (ks : List Bytes) → NoDot k → All NoDot ks → split (join k ks) ≡ (k, ks)
unfolding join
split-join k [] n ns = split-no_dot k n
split-join k (l ∷ ks) n (m, ns) = ground (arith, split-append k (join l ks) n, split-join l ks m ns)

module _ (j : JsonLibrary) where
  open j use {Value}

  -- Each part but the last has to name a member of an object, or an element of an array that stands
  -- at the end of the path before it; the value at each step must not be null.
  unfoldable pub walk : JsonRef j → Bytes → List Bytes → JsonRef j × Bool
  walk r k [] = if j.is_null (value j r) then (global_empty, false) else at_key j r k true
  walk r k (l ∷ ks) =
      let rest = walk (at_key j r k true).0 l ks in
      if j.is_null (value j r)
      then (global_empty, false)
      else if j.is_object (value j r)
      then rest
      else (global_empty, false)

  get_fuel-walk :
      (fuel : ℕ) (r : JsonRef j) (path : Bytes)
      → length path < fuel
      → get_fuel j fuel r path ≡ some (walk r (split path).0 (split path).1)
  unfolding get_fuel walk
  get_fuel-walk zero r path h = elim h [ ]
  get_fuel-walk (suc fuel) r path h = elim (Option-cases (find_dot path)) [
    | inl e ↦ rw (e, split-no_dot path e, get_fuel) (ground arith)
    | inr (n, e) ↦
        rw
          (
            e,
            get_fuel,
            split-dot path n e,
            get_fuel-walk fuel (at_key j r (take n path) true).0 (drop (suc n) path)
                (omega (arith, length-drop-lt path n e)),
          )
          (ground arith)
  ]

  -- `get` comes to an end on every path, and its result and `*founded` are those of following the
  -- parts between the dots of the path one by one.
  pub get-walk :
      (r : JsonRef j) (path : Bytes) → get j r path ≡ some (walk r (split path).0 (split path).1)
  unfolding get
  get-walk r path = get_fuel-walk (suc (length path)) r path (omega arith)

  -- For keys without dots, `get` on the keys joined by dots follows these keys.
  pub get-join :
      (r : JsonRef j) (k : Bytes) (ks : List Bytes)
      → NoDot k
      → All NoDot ks
      → get j r (join k ks) ≡ some (walk r k ks)
  get-join r k ks n ns =
      get-walk r (join k ks)
      ∙ ap (λ (p : Bytes × List Bytes). some (walk r p.0 p.1)) (split-join k ks n ns)
