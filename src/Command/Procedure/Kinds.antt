-- ===== src/Command/Procedure/Kinds.antt =====
-- The kinds of functions that Procedure::from takes, and the choice read backwards.
use module_flow.Prelude.{
  ◌≡◌, refl, Bool, true, false, none, some, List, [], ◌∷◌, ◌↔◌, ◌≢◌, ◌⊎◌, inl, inr, Bool-cases,
  arith, ◌&&◌, not, if◌then◌else◌, nat_eq,
}
use module_flow.Command.Procedure.{
  TypeName, void_type, command_result, command_pointer, Signature, Callable, function_pointer,
  std_function, member_pointer, call_operator, procedure, no_call, same_type, is_pointer,
  takes_constant, to_command_result, from_procedure, from_functor, from_data, from_input,
  from_no_arguments, from_void,
}
use module_flow.Command.Procedure.Choice.{choice, input_choice}

-- A function whose only argument is a CommandObject* and whose result is a CommandResult.
abbrev pub OfCommand : Signature → Type 0
OfCommand s = (s.result ≡ command_result) × (s.arguments ≡ command_pointer ∷ [])

-- A function without parameters whose result converts to CommandResult.
abbrev pub OfNothing : Signature → Type 0
OfNothing s = (s.arguments ≡ []) × (to_command_result s.result ≡ true)

-- A function of one value that is no pointer and is taken from a constant, whose result is a
-- CommandResult.
abbrev pub OfData : Signature → Type 0
OfData s =
    (s.result ≡ command_result)
    × ((d : TypeName) × (s.arguments ≡ d ∷ [])
        × (is_pointer d ≡ false)
        × (d ≢ void_type)
        × (takes_constant d ≡ true))

-- The callables of these kinds that can be passed: no pointers to members; for the second, no operator
-- that is not const; for the third, function pointers and lambdas without captures alone.
abbrev pub TakesCommand : Callable → Type 0
TakesCommand (function_pointer s) = OfCommand s
TakesCommand (std_function s) = OfCommand s
TakesCommand (call_operator s c l) = OfCommand s
TakesCommand (member_pointer s c) = ⊥
TakesCommand procedure = ⊥
TakesCommand no_call = ⊥

abbrev pub TakesNothing : Callable → Type 0
TakesNothing (function_pointer s) = OfNothing s
TakesNothing (std_function s) = OfNothing s
TakesNothing (call_operator s c l) = (c ≡ true) × OfNothing s
TakesNothing (member_pointer s c) = ⊥
TakesNothing procedure = ⊥
TakesNothing no_call = ⊥

abbrev pub TakesData : Callable → Type 0
TakesData (function_pointer s) = OfData s
TakesData (call_operator s c l) = (c ≡ true) × (l ≡ true) × OfData s
TakesData (std_function s) = ⊥
TakesData (member_pointer s c) = ⊥
TakesData procedure = ⊥
TakesData no_call = ⊥

-- The choice, read backwards.
pub choice_lem :
    (makes constant : Bool) (r : TypeName) (ts : List TypeName)
    → let s : Signature = record { result = r; arguments = ts } in
      (choice makes constant r ts ≡ some from_functor ↔ (makes ≡ true) × OfCommand s)
      × (choice makes constant r ts ≡ some from_no_arguments ↔ (constant ≡ true) × OfNothing s)
      × (choice makes constant r ts ≢ some from_procedure)
      × (choice makes constant r ts ≢ some from_data)
      × (choice makes constant r ts ≢ some from_input)
      × (choice makes constant r ts ≢ some from_void)
unfolding to_command_result
choice_lem makes constant r [] = ground arith
choice_lem makes constant r (t ∷ []) = ground arith
choice_lem makes constant r (t ∷ u ∷ ts) = ground arith

pub input_choice_lem :
    (plain : Bool) (r : TypeName) (ts : List TypeName)
    → let s : Signature = record { result = r; arguments = ts } in
      (plain ≡ true → OfData s → input_choice plain r ts ≡ some from_input)
      × ((input_choice plain r ts ≡ none)
          ⊎ ((input_choice plain r ts ≡ some from_input) × (plain ≡ true) × OfData s))
unfolding is_pointer same_type takes_constant
input_choice_lem plain r [] = ((λ e (q, (d, a, p, n, w)). cc), inl (ground arith))
input_choice_lem plain command_result (t ∷ []) = (
  (λ e (q, (d, a, p, n, w)). rw e (value_choice t (same d a p n w))),
  elim (Bool-cases
      (plain && (not (is_pointer t) && (not (same_type t void_type) && takes_constant t)))) [
        | inl y ↦
            inr (
              rw y,
              ground arith,
              (refl, (t, refl, ground arith, (λ v. ground arith), ground arith)),
            )
        | inr z ↦ inl (rw z)
      ],
)
  where
    same :
        (d : TypeName)
        → ◌≡◌ {A = List TypeName} (t ∷ []) (d ∷ [])
        → is_pointer d ≡ false
        → d ≢ void_type
        → takes_constant d ≡ true
        → (is_pointer t ≡ false) × (t ≢ void_type) × (takes_constant t ≡ true)
    same d a p n w = (ground arith, (λ v. n (ground arith)), ground arith)

    value_choice :
        (u : TypeName)
        → (is_pointer u ≡ false) × (u ≢ void_type) × (takes_constant u ≡ true)
        → (if not (is_pointer u) && (not (same_type u void_type) && takes_constant u)
            then some from_input
            else none)
          ≡ some from_input
    value_choice void_type h = absurd (h.1 refl)
    value_choice u h = ground (arith, h.0, h.2)
input_choice_lem plain r (t ∷ []) = ((λ e (q, (d, a, p, n, w)). cc), inl (ground arith))
input_choice_lem plain r (t ∷ u ∷ ts) = ((λ e (q, (d, a, p, n, w)). cc), inl (ground arith))
