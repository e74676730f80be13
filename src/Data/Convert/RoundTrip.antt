-- ===== src/Data/Convert/RoundTrip.antt =====
-- Lists and arrays that are written as JSON and read, and lists read from other JSON.
use module_flow.Prelude.{
  ℕ, zero, suc, ◌+◌, ◌^◌, ◌≡◌, refl, sym, ap, ◌∙◌, Bool, true, false, List, [], ◌∷◌, ◌<◌, ◌≤◌, ◌==◌,
  nat_eq, arith, length, pos, int_eq, to_int32_small, beq_self, nat_beq_iff, Bool-cases, inl, inr,
  ltb, lt→ltb, All,
}
use module_flow.Data.Json.{JsonLibrary, JsonLaws}
use module_flow.Data.Reference.{JsonRef, to, value, array_size, has_index, at, to_double}
use module_flow.Data.Convert.{
  from_each, from_list, write_each, to_list, resize_list, json_to_double_array,
  double_array_to_json,
}

All-any : {A : Type 0} (xs : List A) → All (λ x. Unit {0}) xs
All-any [] = tt
All-any (x ∷ xs) = (tt, All-any xs)

module _ (j : JsonLibrary) (laws : JsonLaws j) {A : Type 0} (write : A → j.Value) where
  open j use {Value}

  -- The writes keep an array and its size, and leave the elements before the first index alone.
  write_each-shape :
      (i : ℕ) (xs : List A) (v : Value)
      → j.is_array v ≡ true
      → i + length xs ≤ j.size v
      → (j.is_array (write_each j write i xs v) ≡ true)
        × (j.size (write_each j write i xs v) ≡ j.size v)
        × ((k : ℕ) → k < i → j.at_index (write_each j write i xs v) k ≡ j.at_index v k)
  unfolding write_each
  write_each-shape i [] v a h = (a, refl, λ k l. refl)
  write_each-shape i (x ∷ xs) v a h =
      let first = laws.set_size v (write x) i a (omega arith) in
      let (b, s, f) =
        write_each-shape (suc i) xs (j.set_index v i (write x))
          (laws.set_array v (write x) i a (omega arith)) (omega (arith, first)) in
      (
        b,
        s ∙ first,
        λ k l. f k (omega arith) ∙ laws.set_at v (write x) i k a (omega arith) ∙ ground arith,
      )

  at_lem :
      (v : Value) (i : ℕ)
      → j.is_array v ≡ true
      → i < j.size v
      → j.size v < 2 ^ 31
      → (at j (to v) (pos i)).0 ≡ to (j.at_index v i)
  unfolding at has_index array_size value
  at_lem v i a h s = rw (a, to_int32_small (j.size v) s, lt→ltb i (j.size v) h) (ground arith)

  from_each-write_each :
      (P : A → Type 0) (elem : JsonRef j → A → A × Bool)
      → ((a x : A) → P a → P x → elem (to (write a)) x ≡ (a, true))
      → (i : ℕ) (xs ys : List A) (v : Value) → All P xs
      → All P ys
      → length ys ≡ length xs
      → j.is_array v ≡ true
      → i + length xs ≤ j.size v
      → j.size v < 2 ^ 31
      → from_each j elem (to (write_each j write i xs v)) i ys ≡ (xs, true)
  unfolding from_each write_each
  from_each-write_each P elem reads i [] [] v p q e a h s = refl
  from_each-write_each P elem reads i [] (y ∷ ys) v p q e a h s = absurd (omega arith)
  from_each-write_each P elem reads i (x ∷ xs) [] v p q e a h s = absurd (omega arith)
  from_each-write_each P elem reads i (x ∷ xs) (y ∷ ys) v p q e a h s =
      let v1 = j.set_index v i (write x) in
      let a1 = laws.set_array v (write x) i a (omega arith) in
      let s1 = laws.set_size v (write x) i a (omega arith) in
      let (b, t, f) = write_each-shape (suc i) xs v1 a1 (omega (arith, s1)) in
      let here : j.at_index (write_each j write (suc i) xs v1) i ≡ write x =
        f i (omega arith) ∙ laws.set_at v (write x) i i a (omega arith) ∙ rw (beq_self i) in
      rw (
        at_lem (write_each j write (suc i) xs v1) i b (omega (arith, t, s1)) (omega (arith, t, s1)),
        here,
        reads x y p.0 q.0,
        from_each-write_each P elem reads (suc i) xs ys v1 p.1 q.1 (omega arith) a1
            (omega (arith, s1)) (omega (arith, s1)),
      )

  length-resize_list : (n : ℕ) (d : A) (xs : List A) → length (resize_list n d xs) ≡ n
  unfolding resize_list
  length-resize_list zero d xs = refl
  length-resize_list (suc n) d [] = ap suc (length-resize_list n d [])
  length-resize_list (suc n) d (x ∷ xs) = ap suc (length-resize_list n d xs)

  array_size_lem :
      (v : Value) (n : ℕ)
      → j.is_array v ≡ true
      → j.size v ≡ n
      → n < 2 ^ 31
      → array_size j (to v) ≡ pos n
  unfolding array_size value
  array_size_lem v n a e h = rw (a, e) (to_int32_small n h)

  All-resize_list :
      (P : A → Type 0) (n : ℕ) (d : A) (xs : List A) → P d → All P xs → All P (resize_list n d xs)
  unfolding resize_list
  All-resize_list P zero d xs p q = tt
  All-resize_list P (suc n) d [] p q = (p, All-resize_list P n d [] p tt)
  All-resize_list P (suc n) d (x ∷ xs) p q = (q.0, All-resize_list P n d xs p q.1)

  -- Where the elements that are written, the elements of the old list and a new one have P, and an
  -- element with P that is written reads back in place of one with P.
  pub from_list-to_list_where :
      (P : A → Type 0) (elem : JsonRef j → A → A × Bool)
      → ((a x : A) → P a → P x → elem (to (write a)) x ≡ (a, true))
      → (d : A) (xs ys : List A) → P d
      → All P xs
      → All P ys
      → length xs < 2 ^ 31
      → length ys < 2 ^ 31
      → from_list j elem true d (to (to_list j write xs)) ys ≡ (xs, true)
  unfolding from_list to_list
  from_list-to_list_where P elem reads d xs ys pd p q h k =
      rw (array_size_lem w n proofs.0 proofs.1 h, to_int32_small (length ys) k, never)
        (elim (Bool-cases (n == length ys)) [
          | inl y ↦ rw y (filled ys q (sym ((nat_beq_iff n (length ys)).0 y)))
          | inr z ↦ rw z (
              filled (resize_list n d ys) (All-resize_list P n d ys pd q)
                (length-resize_list n d ys))
        ])
    where
      n : ℕ
      n = length xs

      never : ltb n 0 ≡ false
      never = ground arith

      v : Value
      v = j.resize j.empty_array n

      w : Value
      w = write_each j write 0 xs v

      small : j.size v < 2 ^ 31
      small = omega (arith, laws.empty_resize_size n)

      proofs : (j.is_array w ≡ true) × (j.size w ≡ n)
      proofs =
          let (a, s, f) =
            write_each-shape 0 xs v (laws.empty_resize_array n)
              (omega (arith, laws.empty_resize_size n)) in
          (a, s ∙ laws.empty_resize_size n)

      filled : (zs : List A) → All P zs → length zs ≡ n → from_each j elem (to w) 0 zs ≡ (xs, true)
      filled zs good e =
          from_each-write_each P elem reads 0 xs zs v p good e (laws.empty_resize_array n)
            (omega (arith, laws.empty_resize_size n)) small

  -- If each element that is written reads back, whatever stood in its place, then so does a list of
  -- fewer than 2^31 of them: fromJson of its toJson fills any list of fewer than 2^31 elements of a
  -- type that can be constructed with that list, and reports success.
  pub from_list-to_list :
      (elem : JsonRef j → A → A × Bool)
      → ((a x : A) → elem (to (write a)) x ≡ (a, true))
      → (d : A) (xs ys : List A) → length xs < 2 ^ 31
      → length ys < 2 ^ 31
      → from_list j elem true d (to (to_list j write xs)) ys ≡ (xs, true)
  from_list-to_list elem reads d xs ys =
      from_list-to_list_where (λ x. Unit {0}) elem (λ a x p q. reads a x) d xs ys tt (All-any xs)
        (All-any ys)

module _ (j : JsonLibrary) {A : Type 0} (elem : JsonRef j → A → A × Bool) where
  -- A value that is no array, an object or a text for instance, is read as a list without elements:
  -- whatever the list held is gone, and the result is success.
  pub from_list-no_array :
      (d : A) (r : JsonRef j) (x : A) (xs : List A)
      → j.is_array (value j r) ≡ false
      → length (x ∷ xs) < 2 ^ 31
      → from_list j elem true d r (x ∷ xs) ≡ ([], true)
  unfolding from_list array_size resize_list from_each
  from_list-no_array d r x xs n h = rw (n, to_int32_small (suc (length xs)) h) (ground arith)

module _ (j : JsonLibrary) (laws : JsonLaws j) where
  open j use {Double}

  -- An array of fewer than 2^31 doubles reads back from its JSON form, into any array of the same
  -- length.
  pub double_array-round_trip :
      (da old : List Double)
      → length old ≡ length da
      → length da < 2 ^ 31
      → json_to_double_array j (to (double_array_to_json j da)) old ≡ (da, true)
  unfolding json_to_double_array double_array_to_json
  double_array-round_trip da old e h =
      rw
        (
          array_size_lem j laws j.of_double w n proofs.0 proofs.1 h,
          e,
          to_int32_small n h,
          beq_self n,
        )
        (from_each-write_each j laws j.of_double (λ x. Unit {0})
          (λ r x. to_double j r j.zero_double) reads 0 da old v (All-any da) (All-any old) e
          (laws.resize_array n) (omega (arith, laws.resize_size n))
          (omega (arith, laws.resize_size n)))
    where
      n : ℕ
      n = length da

      v : j.Value
      v = j.resize j.null_value n

      w : j.Value
      w = write_each j j.of_double 0 da v

      proofs : (j.is_array w ≡ true) × (j.size w ≡ n)
      proofs =
          let (a, s, f) =
            write_each-shape j laws j.of_double 0 da v (laws.resize_array n)
              (omega (arith, laws.resize_size n)) in
          (a, s ∙ laws.resize_size n)

      reads :
          (a x : Double)
          → Unit {0}
          → Unit {0}
          → to_double j (to (j.of_double a)) j.zero_double ≡ (a, true)
      reads a x p q =
          unfold to_double value in
          rw (laws.double_no_null a, laws.double_converts a, laws.double_reads a)
