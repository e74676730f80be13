-- ===== src/Command/Data.antt =====
-- The data of a command: getData, setData, inputData and setInputData of CommandObject, in
-- include/basic/cmd_manager_def.h, over the object manager `mgr_` that a command has. A value stands
-- for one of any C++ type, and types are numbers.
pub mod Reads
pub mod Laws
mod Tests
use module_flow.Prelude.{
  ℕ, Bool, true, false, Option, none, some, ◌==◌, nat_eq, if◌then◌else◌, String, string_eq, not,
}
use module_flow.Object.Heap.{
  Addr, null, fault, Cmd, pure, ◌>>=◌, load, new_object, plain, Environment, undefined_object_name,
}
use module_flow.Object.Manager.{get, add}
use module_flow.Data.Create.{Values, add_new}

-- MFLOW_COMMAND_INPUT
abbrev pub command_input : String
command_input = "_input"

module _ {V : Type 0} where
  -- `type_of v` is the type T of a value.
  module _ (type_of : V → ℕ) where
    -- `_td->get()`, where the pointer came from `mgr_.get<TDataObject<T>>(name)`: a static_cast, which
    -- does not look at the class of the object. To read an object of another class is a fault.
    unfoldable pub read_as : ℕ → Addr → Values V → Cmd V
    read_as type td values = do
      o ← load td
      elim (values td) [
        | none ↦ λ _. fault
        | some v ↦ if type_of v == type then pure v else λ _. fault
      ]

    module _ (mgr_ : Addr) where
      -- getData<T>(name, default_t, ok), with *ok as second part of the result
      unfoldable pub get_data_or : ℕ → String → V → Values V → Cmd (V × Bool)
      get_data_or type name default_t values = do
        td ← get mgr_ name
        if td == null
            then pure (default_t, false)
            else do v ← read_as type td values; pure (v, true)

      -- `initial T` is T().
      module _ (initial : ℕ → V) where
        -- getData<T>(name, ok)
        unfoldable pub get_data : ℕ → String → Values V → Cmd (V × Bool)
        unfolding get_data_or
        get_data type name values = get_data_or type name (initial type) values

        -- inputData<T>()
        unfoldable pub input_data : ℕ → Values V → Cmd V
        unfolding get_data
        input_data type values = do r ← get_data type command_input values; pure r.0

  module _ (mgr_ : Addr) (env : Environment) (fuel : ℕ) where
    -- setData<T>(name, d): a new object, which is deleted if it cannot be added. The result comes with
    -- the values as they are then.
    unfoldable pub set_data : String → V → Values V → Cmd (Bool × Values V)
    unfolding add_new
    set_data name d values = do
      (added, values') ← add_new mgr_ env fuel name d values
      pure (not (added == null), values')

    -- setInputData<T>(d)
    unfoldable pub set_input_data : V → Values V → Cmd (Bool × Values V)
    unfolding set_data
    set_input_data d values = set_data command_input d values
