-- ===== src/Command/Procedure/Tests.antt =====
-- A lambda without captures and parameters, whose int becomes a result: numbers stand for all values.
use module_flow.Prelude.{◌≡◌, refl, true, false, none, some, [], ◌∷◌}
use module_flow.Command.Procedure.{
  Callable, command_result, command_pointer, other_type, call_operator, std_function, from_overload,
  from_functor, select, overloads, function_overloads, func_info, func_if_same, func_if_convertible,
  same_type, same_types, is_pointer, to_command_result, first_type, to_std_function,
  to_function_pointer, compiles, makes_functor, from_input_overload, input_overloads,
  function_pointer, const_callable, takes_constant,
}

abbrev answer : Callable
answer = call_operator (record { result = other_type 1 false true true; arguments = [] }) true true

-- A std::function of a command.
of_command :
    from_overload
      (std_function (record { result = command_result; arguments = command_pointer ∷ [] }))
    ≡ some from_functor
unfolding from_overload select overloads function_overloads func_info func_if_same
    func_if_convertible same_type same_types is_pointer to_command_result first_type to_std_function
    to_function_pointer compiles makes_functor
of_command = refl

-- A function of a reference that is not const, which cannot be called with the input that was captured.
of_reference :
    from_input_overload (
      function_pointer
        (record { result = command_result; arguments = other_type 2 false false false ∷ [] }))
    ≡ none
unfolding from_input_overload select input_overloads func_info func_if_same func_if_convertible
    same_type same_types is_pointer to_command_result first_type to_std_function to_function_pointer
    compiles const_callable takes_constant
of_reference = refl
