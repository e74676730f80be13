-- ===== src/Command/Procedure.antt =====
-- Procedures of commands: the class Procedure of include/basic/cmd_manager_def.h, FuncInfo and the
-- conditions on function types of include/basic/base.h, and Procedure::from, of whose overloads the
-- compiler takes the one whose condition holds. Of a type it matters what these conditions ask.
pub mod Choice
pub mod Kinds
pub mod Laws
mod Tests
use module_flow.Prelude.{
  ℕ, Bool, true, false, Option, none, some, List, [], ◌∷◌, ◌++◌, ◌==◌, nat_eq, if◌then◌else◌, not,
  ◌&&◌, length,
}

-- void, CommandResult, CommandObject*, and other types: a number for each, whether it is a pointer,
-- whether it converts to CommandResult, and whether it is, as the type of a parameter, taken from a
-- constant of the type without its reference. References that are not const, those with && and types
-- that cannot be copied are not.
pub data TypeName : Type 0 where
  void_type command_result command_pointer : TypeName
  other_type : ℕ → Bool → Bool → Bool → TypeName

pub record Signature : Type 0 where
  pub result : TypeName
  pub arguments : List TypeName

-- The type of what is passed to `from`.
pub data Callable : Type 0 where
  -- R(*)(Args...) and std::function<R(Args...)>
  function_pointer std_function : Signature → Callable
  -- R(C::*)(Args...), and whether it is const
  member_pointer : Signature → Bool → Callable
  -- A class that can be copied and has one operator(): whether that is const, and whether the class is
  -- that of a lambda without captures
  call_operator : Signature → Bool → Bool → Callable
  procedure : Callable
  -- A type without such an operator
  no_call : Callable

-- FuncInfo<F>, `none` for FuncInfo<void>, which has no types and for which isFunction is false.
pub record FuncInfo : Type 0 where
  pub is_member : Bool
  pub signature : Signature

unfoldable pub func_info : Callable → Option FuncInfo
func_info (function_pointer s) = some (record { is_member = false; signature = s })
func_info (std_function s) = some (record { is_member = false; signature = s })
func_info (member_pointer s c) = some (record { is_member = true; signature = s })
func_info (call_operator s c l) = some (record { is_member = true; signature = s })
func_info procedure = none
func_info no_call = none

-- FuncInfo::isFunction and FuncInfo::ArgsCount
unfoldable pub is_function : Option FuncInfo → Bool
is_function none = false
is_function (some i) = true

unfoldable pub args_count : FuncInfo → ℕ
args_count i = length i.signature.arguments

-- FirstT of a _t_list
unfoldable pub first_type : List TypeName → TypeName
first_type [] = void_type
first_type (t ∷ ts) = t

-- std::is_same, std::is_pointer, and std::is_convertible to CommandResult
unfoldable pub same_type : TypeName → TypeName → Bool
same_type void_type void_type = true
same_type command_result command_result = true
same_type command_pointer command_pointer = true
same_type (other_type m p c k) (other_type n q d l) = m == n
same_type _ _ = false

unfoldable pub same_types : List TypeName → List TypeName → Bool
unfolding same_type
same_types [] [] = true
same_types (x ∷ xs) (y ∷ ys) = same_type x y && same_types xs ys
same_types _ _ = false

unfoldable pub is_pointer : TypeName → Bool
is_pointer command_pointer = true
is_pointer (other_type n p c k) = p
is_pointer _ = false

unfoldable pub to_command_result : TypeName → Bool
to_command_result command_result = true
to_command_result (other_type n p c k) = c
to_command_result _ = false

unfoldable pub takes_constant : TypeName → Bool
takes_constant (other_type n p c k) = k
takes_constant _ = true

-- FuncIfSame<F1, F2, _>: the function pointer types are the same.
unfoldable pub func_if_same : Signature → Signature → Bool
unfolding same_type same_types
func_if_same s t = same_type s.result t.result && same_types s.arguments t.arguments

-- Whether a callable converts to std::function<CommandResult(D)>, and to CommandResult(*)(D). A
-- default argument lets it convert to the first also with more parameters, but not to the second.
unfoldable pub to_std_function : TypeName → Callable → Signature → Bool
unfolding same_types to_command_result
to_std_function d (member_pointer _ _) s = false
to_std_function d procedure s = false
to_std_function d no_call s = false
to_std_function d (function_pointer _) s =
    same_types s.arguments (d ∷ []) && to_command_result s.result
to_std_function d (std_function _) s = same_types s.arguments (d ∷ []) && to_command_result s.result
to_std_function d (call_operator _ _ _) s =
    same_types s.arguments (d ∷ []) && to_command_result s.result

unfoldable pub to_function_pointer : TypeName → Callable → Signature → Bool
unfolding func_if_same
to_function_pointer d (function_pointer _) s =
    func_if_same s (record { result = command_result; arguments = d ∷ [] })
to_function_pointer d (call_operator _ _ l) s =
    l && func_if_same s (record { result = command_result; arguments = d ∷ [] })
to_function_pointer d _ s = false

-- FuncIfConvertible<F, DataFunctor<FuncIn<F>>, _>: FuncIn is the type of the first argument, of which
-- DataFunctor wants that it is no pointer; without arguments it is void, and there is no such type.
unfoldable pub func_if_convertible : Callable → Signature → Bool
unfolding first_type is_pointer same_type to_std_function to_function_pointer
func_if_convertible f s =
    let d = first_type s.arguments in
    not (is_pointer d)
    && (not (same_type d void_type) && (to_std_function d f s && to_function_pointer d f s))

-- The overloads of Procedure::from, in the order of the source; the fourth takes an input too.
pub data Overload : Type 0 where
  from_procedure from_functor from_data from_input from_no_arguments from_void : Overload

abbrev pub enable_if : Bool → Overload → List Overload
enable_if b x = if b then x ∷ [] else []

-- The overloads of from(f) that are left for a function type: CommandResult(CommandObject*), a
-- function of data, one without parameters and with a result, and void().
unfoldable pub function_overloads : Callable → Signature → List Overload
unfolding func_if_same func_if_convertible same_type
function_overloads f s =
    enable_if
      (func_if_same s (record { result = command_result; arguments = command_pointer ∷ [] }))
      from_functor
    ++ (enable_if (func_if_convertible f s) from_data
        ++ (enable_if
              (func_if_same s (record { result = s.result; arguments = [] })
                && not (same_type s.result void_type))
              from_no_arguments
            ++ enable_if (func_if_same s (record { result = void_type; arguments = [] }))
                from_void))

unfoldable pub overloads : Callable → List Overload
unfolding func_info function_overloads
overloads procedure = from_procedure ∷ []
overloads f = elim (func_info f) [ none ↦ [] | some i ↦ function_overloads f i.signature ]

-- Whether what a lambda captures by copy, and cannot change, can be called there.
unfoldable pub const_callable : Callable → Bool
const_callable (function_pointer s) = true
const_callable (std_function s) = true
const_callable (call_operator s c l) = c
const_callable _ = false

-- Whether a std::function<CommandResult(CommandObject*)> can be made of a callable with this type.
unfoldable pub makes_functor : Callable → Bool
makes_functor (member_pointer s c) = false
makes_functor procedure = false
makes_functor no_call = false
makes_functor _ = true

-- Whether the body of an overload compiles: that of the third calls inputData, a const function that
-- calls one that is not; that of the fourth passes the input that a lambda captured, a constant; that
-- of the last makes a Functor of a lambda without a result.
unfoldable pub compiles : Callable → Overload → Bool
unfolding const_callable makes_functor to_command_result func_info takes_constant first_type
compiles f from_procedure = true
compiles f from_functor = makes_functor f
compiles f from_data = false
compiles f from_input = elim (func_info f) [
  | none ↦ false
  | some i ↦ const_callable f && takes_constant (first_type i.signature.arguments)
]
compiles f from_no_arguments = elim (func_info f) [
  | none ↦ false
  | some i ↦ const_callable f && to_command_result i.signature.result
]
compiles f from_void = false

-- The overload that is called, none where there is no program: no overload or several are left, or
-- the body does not compile.
unfoldable pub select : Callable → List Overload → Option Overload
unfolding compiles
select f [] = none
select f (o ∷ []) = if compiles f o then some o else none
select f (o ∷ p ∷ os) = none

-- from(f)
unfoldable pub from_overload : Callable → Option Overload
unfolding select overloads
from_overload f = select f (overloads f)

-- from(f, in), where `in` is no pointer, and so no loop.
unfoldable pub input_overloads : Callable → List Overload
unfolding func_info func_if_convertible
input_overloads f = elim (func_info f) [
  | none ↦ []
  | some i ↦ enable_if (func_if_convertible f i.signature) from_input
]

unfoldable pub from_input_overload : Callable → Option Overload
unfolding select input_overloads
from_input_overload f = select f (input_overloads f)

-- C stands for CommandObject*, R for CommandResult.
module _ (C R : Type 0) where
  pub record Procedure : Type 0 where
    pub functor_ : C → R
    pub loop_ : ℕ
    pub blocked_ : Bool

  -- What is passed to `from`: a procedure, or a function, by its values for a list of arguments, which
  -- are values of any type.
  pub data Passed (V : Type 0) : Type 0 where
    passed_procedure : Procedure → Passed V
    passed_function : (List V → V) → Passed V

module _ {C R : Type 0} where
  -- The constructors.
  unfoldable pub new_procedure : (C → R) → ℕ → Procedure C R
  new_procedure f loop = record { functor_ = f; loop_ = loop; blocked_ = true }

  unfoldable pub run : Procedure C R → C → R
  run p c = p.functor_ c

  -- The value that a CommandObject* is, and the conversion to CommandResult.
  module _ {V : Type 0} (command_value : C → V) (result_of : V → R) where
    -- The bodies of the overloads that compile.
    unfoldable pub from_body : Overload → Passed C R V → ℕ → Option (Procedure C R)
    unfolding new_procedure
    from_body from_procedure (passed_procedure p) loop = some p
    from_body from_functor (passed_function f) loop =
        some (new_procedure (λ c. result_of (f (command_value c ∷ []))) loop)
    from_body from_no_arguments (passed_function f) loop =
        some (new_procedure (λ c. result_of (f [])) loop)
    from_body _ _ loop = none

    -- from(f, loop), `none` where it does not compile.
    unfoldable pub from : Callable → Passed C R V → ℕ → Option (Procedure C R)
    unfolding from_overload from_body
    from type f loop = elim (from_overload type) [ none ↦ none | some o ↦ from_body o f loop ]

    -- from(f, in, loop)
    unfoldable pub from_with_input : Callable → (List V → V) → V → ℕ → Option (Procedure C R)
    unfolding from_input_overload new_procedure
    from_with_input type f input loop = elim (from_input_overload type) [
      | none ↦ none
      | some o ↦ some (new_procedure (λ c. result_of (f (input ∷ []))) loop)
    ]
