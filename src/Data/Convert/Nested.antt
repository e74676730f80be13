-- ===== src/Data/Convert/Nested.antt =====
-- Lists of lists, to any depth: fromJson and toJson of a list call those of its elements.
use module_flow.Prelude.{ℕ, zero, suc, ◌^◌, ◌≡◌, Bool, true, List, [], ◌<◌, length, arith, All}
use module_flow.Data.Json.{JsonLibrary, JsonLaws}
use module_flow.Data.Reference.{JsonRef, to}
use module_flow.Data.Convert.{from_list, to_list}
use module_flow.Data.Convert.RoundTrip.{from_list-to_list_where}

-- Vector<...<Vector<A>>>
abbrev pub Nested : Type 0 → ℕ → Type 0
Nested A zero = A
Nested A (suc n) = List (Nested A n)

-- What T() is of such a type.
abbrev pub initial : {A : Type 0} → A → (n : ℕ) → Nested A n
initial d zero = d
initial d (suc n) = []

-- No list has 2^31 elements or more.
abbrev pub Small : (A : Type 0) (n : ℕ) → Nested A n → Type 0
Small A zero x = Unit {0}
Small A (suc n) xs = (length xs < 2 ^ 31) × All (Small A n) xs

module _ (j : JsonLibrary) (A : Type 0) where
  unfoldable pub from_nested :
      (JsonRef j → A → A × Bool) → A → (n : ℕ) → JsonRef j → Nested A n → Nested A n × Bool
  from_nested elem d zero = elem
  from_nested elem d (suc n) = from_list j (from_nested elem d n) true (initial d n)

  unfoldable pub to_nested : (A → j.Value) → (n : ℕ) → Nested A n → j.Value
  to_nested write zero = write
  to_nested write (suc n) = to_list j (to_nested write n)

  -- If each element that is written reads back, whatever stood in its place, then so does a list of
  -- lists of any depth, in place of any other, where each list has fewer than 2^31 elements.
  pub from_nested-to_nested :
      JsonLaws j
      → (write : A → j.Value) (elem : JsonRef j → A → A × Bool)
      → ((a x : A) → elem (to (write a)) x ≡ (a, true))
      → (d : A) (n : ℕ) (a x : Nested A n) → Small A n a
      → Small A n x
      → from_nested elem d n (to (to_nested write n a)) x ≡ (a, true)
  unfolding from_nested to_nested
  from_nested-to_nested laws write elem reads d zero a x p q = reads a x
  from_nested-to_nested laws write elem reads d (suc n) a x p q =
      from_list-to_list_where j laws (to_nested write n) (Small A n) (from_nested elem d n)
        (from_nested-to_nested laws write elem reads d n) (initial d n) a x (small n) p.1 q.1 p.0
        q.0
    where
      small : (m : ℕ) → Small A m (initial d m)
      small zero = tt
      small (suc m) = (omega arith, tt)
