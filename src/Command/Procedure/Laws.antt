-- ===== src/Command/Procedure/Laws.antt =====
-- Which functions Procedure::from takes, and what the procedure then does.
use module_flow.Prelude.{◌≡◌, Option, none, some, ◌⊎◌, nat_eq}
use module_flow.Command.Procedure.{Overload, from_functor, from_input, from_no_arguments}

-- What a choice says of the two kinds of functions.
abbrev Sorted : Option Overload → Type 0 → Type 0 → Type 0
Sorted o A B =
    (A × (o ≡ some from_functor))
    ⊎ ((B × (o ≡ some from_no_arguments)) ⊎ ((¬ A) × (¬ B) × (o ≡ none)))

-- The same where an input comes with the function.
abbrev SortedInput : Option Overload → Type 0 → Type 0
SortedInput o A = (A × (o ≡ some from_input)) ⊎ ((¬ A) × (o ≡ none))
