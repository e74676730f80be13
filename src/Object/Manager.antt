-- ===== src/Object/Manager.antt =====
-- ObjectManager of src/basic/object.cpp. The destructor that `add` and `remove` may run is the
-- argument `del`.
pub mod Laws
pub mod Removal
pub mod Fix
pub mod Namesake
mod Tests
use module_flow.Prelude.{
  ℕ, suc, ◌+◌, ◌≡◌, refl, Bool, true, false, Option, none, some, List, [], ◌∷◌, ◌++◌, arith, Eq,
  ◌==◌, nat_eq, if◌then◌else◌, String, string_eq, ◌≢◌, ◌&&◌, ◌||◌, not,
}
use module_flow.Container.HashMap.{HashMap, has, find, valueref, insert_one, erase}
use module_flow.Object.Heap.{
  Addr, null, Task, slot, drop, delete_object, Object, Heap, Run, done, fault, out_of_fuel, Cmd,
  pure, and_then, ◌>>=◌, ◌>>◌, load, modify, Environment, Derived, plain, manager, module_object,
  undefined_object_name,
}
use module_flow.Object.Signals.{set_parent}

-- What a pointer to an ObjectManager reads; an object of another class is no ObjectManager.
unfoldable pub entries : Addr → Cmd (HashMap String Addr)
entries this = do o ← load this; elim o.derived [ manager m ↦ pure m | _ ↦ λ _. fault ]

unfoldable pub set_entries : Addr → HashMap String Addr → Cmd (Unit {0})
set_entries this m = modify this (λ o. record o { derived = manager m })

-- ObjectManager::get
unfoldable pub get : Addr → String → Cmd Addr
get this name = do m ← entries this; pure (valueref m name null)

-- The key under which an entry points to `obj`, the first in the order of iteration.
unfoldable pub key_of : Addr → HashMap String Addr → Option String
key_of obj [] = none
key_of obj ((k, a) ∷ m) = if obj == a then some k else key_of obj m

-- The loop of `fix` over the entries.
unfoldable pub fix_entries : Addr → HashMap String Addr → Cmd (Unit {0})
fix_entries this [] = pure tt
fix_entries this ((k, a) ∷ m) =
    modify a (λ o. record o { name_ = k }) >> (set_parent a this >> fix_entries this m)

-- ObjectManager::fix
unfoldable pub fix : Addr → Cmd (Unit {0})
fix this = do m ← entries this; fix_entries this m

module _ (env : Environment) where
  -- The virtual `name()`: Object's returns the field, Module's asks for a name where the field has
  -- the name for undefined ones.
  abbrev pub virtual_name : Object → Derived → Cmd String
  virtual_name o (module_object s) =
      if o.name_ == undefined_object_name then env.create_module_name else pure o.name_
  virtual_name o plain = pure o.name_
  virtual_name o (manager m) = pure o.name_

  unfoldable pub name : Addr → Cmd String
  name this = do o ← load this; virtual_name o o.derived

  module _ (del : Addr → Cmd (Unit {0})) where
    -- What `add` does where the name is free.
    unfoldable pub register : Addr → Addr → Cmd Addr
    register this obj = do
      set_parent obj this
      key ← name obj
      m ← entries this
      set_entries this (insert_one key obj m)
      pure obj

    -- ObjectManager::add
    unfoldable pub add : Addr → Addr → Bool → Cmd Addr
    add this obj delete_if_failed_add = if obj == null then pure null else do
      key ← name obj
      m ← entries this
      if has m key
          then (if delete_if_failed_add then del obj else pure tt) >> pure null
          else register this obj

    -- The end of both forms of `remove`.
    unfoldable pub detach : Addr → Bool → Cmd Bool
    detach obj auto_delete = do
      set_parent obj null
      if auto_delete then del obj else pure tt
      pure true

    -- The search by pointer, for an object whose name is not a key.
    unfoldable pub remove_by_pointer : Addr → Addr → Bool → HashMap String Addr → Cmd Bool
    remove_by_pointer this obj auto_delete m = elim (key_of obj m) [
      | none ↦ pure false
      | some k ↦ set_entries this (erase k m) >> detach obj auto_delete
    ]

    -- ObjectManager::remove(Object*, bool)
    unfoldable pub remove : Addr → Addr → Bool → Cmd Bool
    remove this obj auto_delete = if obj == null then pure false else do
      key ← name obj
      m ← entries this
      if has m key
          then set_entries this (erase key m) >> detach obj auto_delete
          else remove_by_pointer this obj auto_delete m

    -- ObjectManager::remove(const std::string&, bool)
    unfoldable pub remove_name : Addr → String → Bool → Cmd Bool
    remove_name this name auto_delete = do
      obj ← get this name
      m ← entries this
      if obj == null || not (has m name)
          then pure false
          else set_entries this (erase name m) >> detach obj auto_delete
