-- ===== src/Container/HashMap/Tests.antt =====
-- A map from two lists, of which the keys repeat.
use module_flow.Prelude.{ℕ, ◌≡◌, List, [], ◌∷◌, nat_eq}
use module_flow.Container.HashMap.{HashMap, find, from_multi_kv}
use module_flow.Container.HashMap.Laws.{last_pair, find-from_multi_kv}

abbrev keys : List ℕ
keys = 3 ∷ 4 ∷ 3 ∷ 5 ∷ []

abbrev amounts : List ℕ
amounts = 30 ∷ 40 ∷ 31 ∷ []

abbrev old : HashMap ℕ ℕ
old = (5, 50) ∷ []

find-from_multi_kv_example :
    find 3 (from_multi_kv keys amounts old) ≡ last_pair 3 keys amounts (find 3 old)
find-from_multi_kv_example = find-from_multi_kv 3 keys amounts old
