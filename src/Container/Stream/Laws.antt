-- ===== src/Container/Stream/Laws.antt =====
-- What a container is printed as.
use module_flow.Prelude.{
  ℕ, suc, ◌+◌, ◌≡◌, refl, ap, true, false, List, [], ◌∷◌, ◌++◌, ◌==◌, nat_eq, length, map, arith,
  append-nil,
}
use module_flow.Data.Json.{Bytes}
use module_flow.Container.Stream.{
  comma, print_each, print_between, print_list, print_map, print_pair,
}

-- Texts with a comma between each two.
abbrev pub join : List Bytes → Bytes
join [] = []
join (x ∷ []) = x
join (x ∷ y ∷ xs) = x ++ (comma ++ join (y ∷ xs))

module _ {A : Type 0} (print : A → Bytes) where
  print_each-join :
      (n cnt : ℕ) (xs : List A)
      → n ≡ cnt + length xs
      → print_each print n cnt xs ≡ join (map print xs)
  unfolding print_each
  print_each-join n cnt [] e = refl
  print_each-join n cnt (x ∷ []) e =
      let last : (suc cnt == n) ≡ true = ground (arith, e) in rw last (append-nil (print x))
  print_each-join n cnt (x ∷ y ∷ xs) e =
      let more : (suc cnt == n) ≡ false = ground (arith, e) in
      rw more (
        ap (λ t. print x ++ (comma ++ t)) (print_each-join n (suc cnt) (y ∷ xs) (omega (arith, e))))

  -- A Vector or List is printed as its elements in brackets, with a comma between each two.
  print_list-join :
      (xs : List A) → print_list print xs ≡ (b'[' ∷ []) ++ (join (map print xs) ++ (b']' ∷ []))
  unfolding print_list print_between
  print_list-join xs = rw (print_each-join (length xs) 0 xs (omega arith)) refl

-- A Map or HashMap is printed as its pairs in braces, each as key and value with a colon between them.
print_map-join :
    {K V : Type 0} (print_key : K → Bytes) (print_value : V → Bytes) (m : List (K × V))
    → print_map print_key print_value m
      ≡ (b'{' ∷ []) ++ (join (map (print_pair print_key print_value) m) ++ (b'}' ∷ []))
unfolding print_map print_between
print_map-join print_key print_value m =
    rw (print_each-join (print_pair print_key print_value) (length m) 0 m (omega arith)) refl
