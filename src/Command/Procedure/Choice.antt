-- ===== src/Command/Procedure/Choice.antt =====
-- Which overload of Procedure::from is chosen, by the result and the arguments of a function.
use module_flow.Prelude.{
  ◌≡◌, Bool, true, false, Option, none, some, List, [], ◌∷◌, arith, ◌&&◌, not, if◌then◌else◌,
  nat_eq,
}
use module_flow.Command.Procedure.{
  TypeName, void_type, command_result, command_pointer, function_pointer, std_function,
  member_pointer, call_operator, func_info, first_type, same_type, same_types, is_pointer,
  to_command_result, func_if_same, to_std_function, to_function_pointer, func_if_convertible,
  Overload, from_functor, from_input, from_no_arguments, function_overloads, overloads,
  const_callable, takes_constant, makes_functor, compiles, select, from_overload, input_overloads,
  from_input_overload,
}

-- What is chosen for a function with this result and these arguments, if `constant` says whether a
-- constant of its type can be called, and `makes` whether a Functor can be made of it.
abbrev pub choice : (makes constant : Bool) → TypeName → List TypeName → Option Overload
choice makes constant r [] =
    if constant && to_command_result r then some from_no_arguments else none
choice makes constant command_result (command_pointer ∷ []) =
    if makes then some from_functor else none
choice makes constant r (t ∷ ts) = none

pub pointer_choice :
    (r : TypeName) (ts : List TypeName)
    → from_overload (function_pointer (record { result = r; arguments = ts }))
      ≡ choice true true r ts
unfolding from_overload select compiles overloads function_overloads func_info func_if_same
    func_if_convertible same_type same_types is_pointer to_command_result first_type to_std_function
    to_function_pointer const_callable takes_constant makes_functor
pointer_choice r [] = ground arith
pointer_choice r (t ∷ []) = ground arith
pointer_choice r (t ∷ u ∷ ts) = ground arith

pub std_choice :
    (r : TypeName) (ts : List TypeName)
    → from_overload (std_function (record { result = r; arguments = ts })) ≡ choice true true r ts
unfolding from_overload select compiles overloads function_overloads func_info func_if_same
    func_if_convertible same_type same_types is_pointer to_command_result first_type to_std_function
    to_function_pointer const_callable takes_constant makes_functor
std_choice r [] = ground arith
std_choice r (t ∷ []) = ground arith
std_choice r (t ∷ u ∷ ts) = ground arith

pub member_choice :
    (r : TypeName) (ts : List TypeName) (c : Bool)
    → from_overload (member_pointer (record { result = r; arguments = ts }) c)
      ≡ choice false false r ts
unfolding from_overload select compiles overloads function_overloads func_info func_if_same
    func_if_convertible same_type same_types is_pointer to_command_result first_type to_std_function
    to_function_pointer const_callable takes_constant makes_functor
member_choice r [] c = ground arith
member_choice r (t ∷ []) c = ground arith
member_choice r (t ∷ u ∷ ts) c = ground arith

pub operator_choice :
    (r : TypeName) (ts : List TypeName) (c l : Bool)
    → from_overload (call_operator (record { result = r; arguments = ts }) c l) ≡ choice true c r ts
unfolding from_overload select compiles overloads function_overloads func_info func_if_same
    func_if_convertible same_type same_types is_pointer to_command_result first_type to_std_function
    to_function_pointer const_callable takes_constant makes_functor
operator_choice r [] c l = ground arith
operator_choice r (t ∷ []) c l = ground arith
operator_choice r (t ∷ u ∷ ts) c l = ground arith

-- What is chosen where an input comes with the function; `plain` tells whether a constant of its type
-- can be called, and it converts to a function pointer of its kind.
abbrev pub input_choice : Bool → TypeName → List TypeName → Option Overload
input_choice plain command_result (t ∷ []) =
    if plain && (not (is_pointer t) && (not (same_type t void_type) && takes_constant t))
    then some from_input
    else none
input_choice plain r ts = none

pub pointer_input :
    (r : TypeName) (ts : List TypeName)
    → from_input_overload (function_pointer (record { result = r; arguments = ts }))
      ≡ input_choice true r ts
unfolding from_input_overload select compiles input_overloads func_info func_if_same
    func_if_convertible same_type same_types is_pointer to_command_result first_type to_std_function
    to_function_pointer const_callable takes_constant
pointer_input r [] = ground arith
pointer_input r (t ∷ []) = ground arith
pointer_input r (t ∷ u ∷ ts) = ground arith

pub std_input :
    (r : TypeName) (ts : List TypeName)
    → from_input_overload (std_function (record { result = r; arguments = ts }))
      ≡ input_choice false r ts
unfolding from_input_overload select compiles input_overloads func_info func_if_same
    func_if_convertible same_type same_types is_pointer to_command_result first_type to_std_function
    to_function_pointer const_callable takes_constant
std_input r [] = ground arith
std_input r (t ∷ []) = ground arith
std_input r (t ∷ u ∷ ts) = ground arith

pub member_input :
    (r : TypeName) (ts : List TypeName) (c : Bool)
    → from_input_overload (member_pointer (record { result = r; arguments = ts }) c)
      ≡ input_choice false r ts
unfolding from_input_overload select compiles input_overloads func_info func_if_same
    func_if_convertible same_type same_types is_pointer to_command_result first_type to_std_function
    to_function_pointer const_callable takes_constant
member_input r [] c = ground arith
member_input r (t ∷ []) c = ground arith
member_input r (t ∷ u ∷ ts) c = ground arith

pub operator_input :
    (r : TypeName) (ts : List TypeName) (c l : Bool)
    → from_input_overload (call_operator (record { result = r; arguments = ts }) c l)
      ≡ input_choice (c && l) r ts
unfolding from_input_overload select compiles input_overloads func_info func_if_same
    func_if_convertible same_type same_types is_pointer to_command_result first_type to_std_function
    to_function_pointer const_callable takes_constant
operator_input r [] c l = ground arith
operator_input r (t ∷ []) c l = ground arith
operator_input r (t ∷ u ∷ ts) c l = ground arith
