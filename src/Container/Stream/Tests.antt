-- ===== src/Container/Stream/Tests.antt =====
-- Two numbers below ten, printed.
use module_flow.Prelude.{ℕ, ◌+◌, ◌≡◌, refl, [], ◌∷◌}
use module_flow.Data.Json.{Bytes}
use module_flow.Container.Stream.{print_each, print_between, print_list, print_map}

abbrev print_digit : ℕ → Bytes
print_digit n = (b'0' + n) ∷ []

printed :
    (print_list print_digit (4 ∷ 2 ∷ []) ≡ b'[' ∷ b'4' ∷ b',' ∷ b' ' ∷ b'2' ∷ b']' ∷ [])
    × (print_map print_digit print_digit ((4, 2) ∷ [])
        ≡ b'{' ∷ b'4' ∷ b':' ∷ b' ' ∷ b'2' ∷ b'}' ∷ [])
unfolding print_list print_map print_between print_each
printed = (refl, refl)
