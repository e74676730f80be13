-- ===== src/Object/Destroy.antt =====
-- The destructors: ~Object and ~ObjectManager of src/basic/object.cpp, and emit with them. Fuel is
-- the depth to which destructors run inside one another.
use module_flow.Prelude.{
  ℕ, zero, suc, Bool, false, none, some, [], ◌∷◌, ◌==◌, nat_eq, if◌then◌else◌, String, string_eq,
}
use module_flow.Container.HashMap.{HashMap, find}
use module_flow.Object.Heap.{
  Addr, null, fault, out_of_fuel, Cmd, pure, and_then, ◌>>=◌, ◌>>◌, load, modify, free, Environment,
  Derived, plain, manager, module_object,
}
use module_flow.Object.Signals.{set_parent, emit_with, delete_signal}
use module_flow.Object.Manager.{entries, remove}

-- Whether the entry that the loop of ~ObjectManager has come to still stands in the map. One that
-- has gone in the meantime leaves the loop with an invalid iterator.
unfoldable pub still_there : HashMap String Addr → String → Addr → Bool
still_there m k a = elim (find k m) [ none ↦ false | some b ↦ a == b ]

module _ (env : Environment) where
  -- The loop of ~ObjectManager.
  unfoldable pub delete_children :
      (Addr → Cmd (Unit {0})) → Addr → HashMap String Addr → Cmd (Unit {0})
  delete_children del this [] = pure tt
  delete_children del this ((k, a) ∷ rest) = do
    m ← entries this
    if still_there m k a
        then set_parent a null >> (del a >> delete_children del this rest)
        else λ _. fault

  -- The body of ~ObjectManager, empty for other classes.
  unfoldable pub destroy_derived : (Addr → Cmd (Unit {0})) → Addr → Derived → Cmd (Unit {0})
  destroy_derived del this (manager m) = delete_children del this m
  destroy_derived del this plain = pure tt
  destroy_derived del this (module_object s) = pure tt

  -- The second statement of ~Object.
  unfoldable pub leave_parent : (Addr → Cmd (Unit {0})) → Addr → Addr → Cmd (Unit {0})
  leave_parent del this p = if p == null then pure tt else do
    q ← load p
    elim q.derived [
      | manager m ↦ (λ h. and_then (remove env del p this false h) (λ _. pure tt))
      | _ ↦ pure tt
    ]

  -- ~Object, and the end of the memory. Once ~ObjectManager is done the object is an Object and
  -- nothing more.
  unfoldable pub destroy_base : (Addr → Cmd (Unit {0})) → Addr → Cmd (Unit {0})
  destroy_base del this = do
    modify this (λ o. record o { derived = plain })
    emit_with env del this delete_signal
    o ← load this
    leave_parent del this o.parent_
    free this

  -- One destructor, with `del` for those that it runs.
  unfoldable pub destroy_with : (Addr → Cmd (Unit {0})) → Addr → Cmd (Unit {0})
  destroy_with del this =
      if this == null
      then pure tt
      else do o ← load this; destroy_derived del this o.derived; destroy_base del this

  -- `delete this`
  unfoldable pub destroy : ℕ → Addr → Cmd (Unit {0})
  destroy zero this = λ _. out_of_fuel
  destroy (suc fuel) this = destroy_with (destroy fuel) this

  -- Object::emit
  unfoldable pub emit : ℕ → Addr → ℕ → Cmd (Unit {0})
  emit fuel this signal = emit_with env (destroy fuel) this signal
