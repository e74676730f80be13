-- ===== src/Container/Stream.antt =====
-- The operators << of include/basic/base.h for containers. A stream is the text that it gets, and
-- `print` what it gets for an element.
pub mod Laws
mod Tests
use module_flow.Prelude.{ℕ, suc, List, [], ◌∷◌, ◌++◌, ◌==◌, nat_eq, if◌then◌else◌, length}
use module_flow.Data.Json.{Bytes}

abbrev pub comma : Bytes
comma = b',' ∷ b' ' ∷ []

module _ {A : Type 0} (print : A → Bytes) where
  -- The loop of MFLOW_CONTAINER_OUTSTREAM_IMPL, with `size` for size() and `cnt` for _cnt.
  unfoldable pub print_each : ℕ → ℕ → List A → Bytes
  print_each size cnt [] = []
  print_each size cnt (x ∷ xs) =
      print x ++ ((if suc cnt == size then [] else comma) ++ print_each size (suc cnt) xs)

  unfoldable pub print_between : Bytes → Bytes → List A → Bytes
  unfolding print_each
  print_between begin end xs = begin ++ (print_each (length xs) 0 xs ++ end)

  -- For Vector and List.
  unfoldable pub print_list : List A → Bytes
  unfolding print_between
  print_list xs = print_between (b'[' ∷ []) (b']' ∷ []) xs

module _ {K V : Type 0} (print_key : K → Bytes) (print_value : V → Bytes) where
  abbrev pub print_pair : K × V → Bytes
  print_pair p = print_key p.0 ++ ((b':' ∷ b' ' ∷ []) ++ print_value p.1)

  -- For Map and HashMap.
  unfoldable pub print_map : List (K × V) → Bytes
  unfolding print_between
  print_map m = print_between print_pair (b'{' ∷ []) (b'}' ∷ []) m
