-- ===== src/Container/Vector/Tests.antt =====
-- An element inserted in the middle.
use module_flow.Prelude.{
  ℕ, ◌+◌, ◌-◌, ◌≡◌, refl, some, List, [], ◌∷◌, ◌==◌, nat_eq, if◌then◌else◌, ltb, length, pos,
  negsuc, get_elem?, arith,
}
use module_flow.Container.Vector.{has, value, insert_one, size_int}
use module_flow.Container.Vector.Laws.{value-insert_one}

abbrev sizes : List ℕ
sizes = 4 ∷ 6 ∷ []

value-insert_one_example :
    (ys : List ℕ) × (insert_one (pos 1) 5 sizes ≡ some ys)
    × (size_int ys ≡ pos (length sizes + 1))
    × ((k : ℕ)
        → (value ys (pos k) 0 ≡ (
            if k == 1
            then some 5
            else if ltb k 1
            then get_elem? sizes k
            else if ltb k (length sizes + 1)
            then get_elem? sizes (k - 1)
            else some 0))
          × (value ys (negsuc k) 0 ≡ some 0))
value-insert_one_example = value-insert_one 1 5 0 sizes (omega arith) (omega arith)

-- No element stands below zero.
value_below : value sizes (negsuc 0) 9 ≡ some 9
unfolding value has
value_below = refl
