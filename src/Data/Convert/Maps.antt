-- ===== src/Data/Convert/Maps.antt =====
-- Maps that are written as JSON and read.
use module_flow.Prelude.{
  ◌≡◌, refl, ap, ◌∙◌, Bool, true, false, none, some, [], ◌∷◌, ◌==◌, nat_eq, list_eq, list_beq_iff,
  arith, Bool-cases, inl, inr, Option-cases, ◌⊎◌, All,
}
use module_flow.Container.HashMap.{HashMap, find, has, valueref}
use module_flow.Container.HashMap.Keys.{Distinct}
use module_flow.Data.Json.{Bytes, JsonLibrary, JsonLaws}
use module_flow.Data.Reference.{JsonRef, to, value, has_key, at_key}
use module_flow.Data.Convert.{from_map, set_each, to_map}

module _ (j : JsonLibrary) (laws : JsonLaws j) {A : Type 0} (write : A → j.Value) where
  open j use {Value}

  -- The value is an object with a member `k`, which is `x`.
  record Member (v : Value) (k : Bytes) (x : Value) : Type 0 where
    object : j.is_object v ≡ true
    member : j.is_member v k ≡ true
    stands : j.at_key v k ≡ x

  set_each-Member :
      (m : HashMap Bytes A) (v x : Value) (k : Bytes)
      → find k m ≡ none
      → Member v k x
      → Member (set_each j write m v) k x
  unfolding set_each find
  set_each-Member [] v x k n h = h
  set_each-Member ((l, y) ∷ m) v x k n h = elim (Bool-cases (l == k)) [
    | inl e ↦ absurd (ground arith)
    | inr e ↦ set_each-Member m (j.set_key v l (write y)) x k (ground arith) (record {
      object = laws.key_object v (write y) l (inr h.object);
      member = laws.key_member v (write y) l k (inr h.object) ∙ rw (e, h.object, h.member);
      stands = laws.key_at v (write y) l k (inr h.object) ∙ rw e h.stands;
    })
  ]

  set_each-find :
      (m : HashMap Bytes A) (v : Value) (k : Bytes) (x : A)
      → (j.is_null v ≡ true) ⊎ (j.is_object v ≡ true)
      → Distinct m
      → find k m ≡ some x
      → Member (set_each j write m v) k (write x)
  unfolding set_each find
  set_each-find [] v k x o d f = cc
  set_each-find ((l, y) ∷ m) v k x o d f = elim (Bool-cases (l == k)) [
    | inl e ↦
        set_each-Member m (j.set_key v l (write y)) (write x) k (rw (← (list_beq_iff l k).0 e) d.0)
          (record {
            object = laws.key_object v (write y) l o;
            member = laws.key_member v (write y) l k o ∙ rw e;
            stands = laws.key_at v (write y) l k o ∙ rw e (ap write (ground (arith)));
          })
    | inr e ↦
        set_each-find m (j.set_key v l (write y)) k x (inr (laws.key_object v (write y) l o)) d.1
          (ground arith)
  ]

  -- The values that a map has for the keys of another.
  abbrev pub refresh : HashMap Bytes A → HashMap Bytes A → HashMap Bytes A
  refresh m [] = []
  refresh m ((k, x) ∷ ys) = (k, valueref m k x) ∷ refresh m ys

  at_key-Member : (v x : Value) (k : Bytes) → Member v k x → (at_key j (to v) k false).0 ≡ to x
  unfolding at_key has_key value
  at_key-Member v x k h = ground (arith, h.object, h.member, h.stands)

  -- If each value that is written reads back, whatever stood in its place, then fromJson of toJson of a
  -- map, read into a map that has no keys but those of the first, gives each of its keys the value of
  -- the first map, and reports success. No key is added.
  pub from_map-to_map :
      (elem : JsonRef j → A → A × Bool)
      → ((a x : A) → elem (to (write a)) x ≡ (a, true))
      → (m ys : HashMap Bytes A) → Distinct m
      → All (λ p. has m p.0 ≡ true) ys
      → from_map j elem (to (to_map j write m)) ys ≡ (refresh m ys, true)
  unfolding from_map
  from_map-to_map elem reads m [] d h = refl
  from_map-to_map elem reads m ((k, x) ∷ ys) d h = elim (Option-cases (find k m)) [
    | inl n ↦ absurd (unfold has in ground (arith, h.0))
    | inr (y, e) ↦
        let same : valueref m k x ≡ y = unfold valueref in ground (arith, e) in
        rw (
          same,
          at_key-Member (to_map j write m) (write y) k
              (unfold to_map in set_each-find m j.null_value k y (inl laws.null_is_null) d e),
          reads y x,
          from_map-to_map elem reads m ys d h.1,
        )
  ]
