-- ===== src/Container/Map/Tests.antt =====
-- A map from numbers to numbers, made from lists with a key twice.
use module_flow.Prelude.{ℕ, ◌≡◌, refl, List, [], ◌∷◌, nat_eq}
use module_flow.Container.HashMap as Hash
use module_flow.Container.Map.{Map, nat_order, find, insert_one, from_multi_kv}
use module_flow.Container.Map.Laws.{IsSorted, map_as_hash_map}

abbrev some_keys : List ℕ
some_keys = 3 ∷ 1 ∷ 3 ∷ []

abbrev some_values : List ℕ
some_values = 5 ∷ 6 ∷ 7 ∷ []

abbrev empty : Map ℕ ℕ
empty = []

map_as_hash_map_example :
    ((j : ℕ)
      → find j (from_multi_kv some_keys some_values empty)
        ≡ Hash.find j (Hash.from_multi_kv some_keys some_values empty))
    × IsSorted (from_multi_kv some_keys some_values empty)
map_as_hash_map_example = map_as_hash_map some_keys some_values

in_order : from_multi_kv some_keys some_values empty ≡ (1, 6) ∷ (3, 7) ∷ []
unfolding from_multi_kv insert_one
in_order = refl
