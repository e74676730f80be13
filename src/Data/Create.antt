-- ===== src/Data/Create.antt =====
-- data::create of include/basic/data_manager_def.h: a new data object that is added to a manager. The
-- code adds one in the same way in setData of a command.
pub mod Laws
pub mod Samples
mod Tests
use module_flow.Prelude.{ℕ, true, Option, some, ◌==◌, nat_eq, if◌then◌else◌, String, string_eq}
use module_flow.Object.Heap.{
  Addr, Cmd, pure, ◌>>=◌, new_object, plain, Environment, undefined_object_name,
}
use module_flow.Object.Manager.{add}
use module_flow.Object.Destroy.{destroy}

-- The name that Object keeps of the one that it is given.
abbrev pub kept_name : String → String
kept_name name = if name == "" then undefined_object_name else name

-- The values of the typed data objects, by address; objects of other classes have none.
abbrev pub Values : Type 0 → Type 0
Values V = Addr → Option V

module _ {V : Type 0} where
  unfoldable pub put_value : Addr → V → Values V → Values V
  put_value p d values q = if p == q then some d else values q

  module _ (mgr_ : Addr) (env : Environment) (fuel : ℕ) where
    -- `mgr.add(new T(name, d), true)`: the new object, or null if it was deleted again since it could
    -- not be added; and the values as they are then.
    unfoldable pub add_new : String → V → Values V → Cmd (Addr × Values V)
    add_new name d values = do
      p ← new_object name plain
      added ← add env (destroy env fuel) mgr_ p true
      pure (added, put_value p d values)

    -- create(name, d), for the manager of data::mgr()
    unfoldable pub create : String → V → Values V → Cmd (Addr × Values V)
    unfolding add_new
    create name d values = add_new name d values
