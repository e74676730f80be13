-- ===== src/Container/Vector/Laws.antt =====
-- Reading a sequence by index after an element was inserted.
use module_flow.Prelude.{
  ℕ, zero, suc, ◌+◌, ◌-◌, ◌^◌, ◌<◌, ◌≤◌, ◌≡◌, refl, false, some, List, [], ◌∷◌, ◌++◌, if◌then◌else◌,
  length, take, drop, get_elem?, pos, negsuc, ltb, ◌==◌, nat_eq, to_int32_small, arith,
}
use module_flow.Container.Vector.{size_int, has, value, insert_one}

module _ {ℓ} {A : Type ℓ} where
  pub value_lem :
      (xs : List A) (k : ℕ) (d : A)
      → length xs < 2 ^ 31
      → value xs (pos k) d ≡ (if ltb k (length xs) then get_elem? xs k else some d)
  unfolding value has size_int
  value_lem xs k d h = rw (to_int32_small (length xs) h, never) refl
    where
      never : ltb k 0 ≡ false
      never = ground arith

  get_elem-insert :
      (n k : ℕ) (xs : List A) (a : A)
      → n ≤ length xs
      → get_elem? (take n xs ++ a ∷ drop n xs) k
        ≡ (if k == n then some a else if ltb k n then get_elem? xs k else get_elem? xs (k - 1))
  get_elem-insert zero zero xs a h = refl
  get_elem-insert zero (suc k) xs a h = ground arith
  get_elem-insert (suc n) k [] a h = absurd (omega arith)
  get_elem-insert (suc n) zero (x ∷ xs) a h = ground arith
  get_elem-insert (suc n) (suc zero) (x ∷ xs) a h = ground (arith, get_elem-insert n zero xs a)
  get_elem-insert (suc n) (suc (suc k)) (x ∷ xs) a h =
      ground (arith, get_elem-insert n (suc k) xs a)

  length-insert :
      (n : ℕ) (xs : List A) (a : A)
      → n ≤ length xs
      → length (take n xs ++ a ∷ drop n xs) ≡ length xs + 1
  length-insert zero xs a h = omega arith
  length-insert (suc n) [] a h = absurd (omega arith)
  length-insert (suc n) (x ∷ xs) a h = omega (arith, length-insert n xs a)

  -- In a sequence of fewer than 2^31 - 1 elements, `insertOne` at an index up to the size makes it
  -- longer by one. Reading by an index that is not negative then gives the new element at that index,
  -- the old ones below it as before and the others one place further, and the default from the end on;
  -- a negative index gives the default.
  pub value-insert_one :
      (n : ℕ) (a d : A) (xs : List A)
      → n ≤ length xs
      → length xs + 1 < 2 ^ 31
      → (ys : List A) × (insert_one (pos n) a xs ≡ some ys)
        × (size_int ys ≡ pos (length xs + 1))
        × ((k : ℕ)
            → (value ys (pos k) d ≡ (
                if k == n
                then some a
                else if ltb k n
                then get_elem? xs k
                else if ltb k (length xs + 1)
                then get_elem? xs (k - 1)
                else some d))
              × (value ys (negsuc k) d ≡ some d))
  unfolding insert_one size_int
  value-insert_one n a d xs h l = (
    take n xs ++ a ∷ drop n xs,
    ground arith,
    rw (length-insert n xs a h) (to_int32_small (length xs + 1) l),
    λ k. (
      rw
          (
            value_lem (take n xs ++ a ∷ drop n xs) k d (omega (arith, length-insert n xs a h)),
            length-insert n xs a h,
            get_elem-insert n k xs a h,
          )
          (ground arith),
      unfold value has in refl,
    ),
  )
