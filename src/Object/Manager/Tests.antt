-- ===== src/Object/Manager/Tests.antt =====
-- A manager at 1, which holds the object "pump" at 2; at 3 stands another object of that name, and
-- at 4 one whose name is free.
use module_flow.Prelude.{
  ◌≡◌, refl, true, false, none, some, [], ◌∷◌, arith, ◌==◌, nat_eq, if◌then◌else◌, ◌≢◌, String,
  string_eq,
}
use module_flow.Container.HashMap.{HashMap, find, valueref, has, erase}
use module_flow.Object.Heap.{
  Addr, null, Object, Heap, done, Cmd, Derived, plain, manager, Environment, pure, load, write,
  modify,
}
use module_flow.Object.Returns.{Returns}
use module_flow.Object.Signals.{parent, set_parent}
use module_flow.Object.Manager.{
  fix, get, add, remove, entries, set_entries, detach, key_of, name, remove_by_pointer,
}
use module_flow.Object.Manager.Laws.{Manages, Named}
use module_flow.Object.Manager.Fix.{Fixed, fix_lem}
use module_flow.Object.Manager.Namesake.{add-get, remove_evicts_namesake}

abbrev calm : Environment
calm = record {
  callback = λ k. pure tt;
  create_module_name = pure "module";
  entry_module = λ key. pure null;
  on_init = λ this. pure tt;
}

abbrev no_delete : Addr → Cmd (Unit {0})
no_delete x = pure tt

abbrev named_object : String → Addr → Derived → Object
named_object name p d = record { name_ = name; parent_ = p; connections_ = []; derived = d }

abbrev pumps : HashMap String Addr
pumps = ("pump", 2) ∷ []

abbrev plant : Heap
plant = record {
  cell = λ a.
      if a == 1
      then some (named_object "plant" null (manager pumps))
      else if a == 2
      then some (named_object "pump" 1 plain)
      else if a == 3
      then some (named_object "pump" null plain)
      else if a == 4
      then some (named_object "valve" null plain)
      else none;
  next = 5;
  calls = [];
}

plant-Manages : Manages plant 1 (named_object "plant" null (manager pumps)) pumps
plant-Manages = record { stands = refl; kind = refl }

valve-Named : Named plant 4 (named_object "valve" null plain)
valve-Named = record { stands = refl; not_null = omega arith; no_module = λ s e. cc }

pump-Named : Named plant 3 (named_object "pump" null plain)
pump-Named = record { stands = refl; not_null = omega arith; no_module = λ s e. cc }

add-get_example : Returns (add calm no_delete 1 4 false plant) (λ r h'.
    (r ≡ 4)
    × ((k : String) → get 1 k h' ≡ done (if "valve" == k then 4 else valueref pumps k null) h')
    × (parent 4 h' ≡ done 1 h')
    × ((x : Addr) (p : Object)
        → Named h' x p
        → p.name_ ≡ "valve"
        → 1 ≢ x
        → add calm no_delete 1 x false h' ≡ done null h'))
add-get_example =
    add-get calm no_delete plant 1 4 (named_object "plant" null (manager pumps))
      (named_object "valve" null plain) pumps plant-Manages valve-Named (omega arith)
      (unfold has find in refl) false

remove_evicts_namesake_example :
    Returns
      (remove calm no_delete 1 3 false plant)
      (λ r h'. (r ≡ true) × (get 1 "pump" plant ≡ done 2 plant) × (get 1 "pump" h' ≡ done null h'))
remove_evicts_namesake_example =
    remove_evicts_namesake calm no_delete plant 1 3 (named_object "plant" null (manager pumps))
      (named_object "pump" null plain) pumps plant-Manages pump-Named (omega arith) 2
      (unfold find in refl) (omega arith)

-- An object that is registered under another key than its name is found by its address.
remove_renamed :
    Returns
      (remove calm no_delete 1 2 false (record plant {
        cell = λ a. if a == 2 then some (named_object "renamed" 1 plain) else plant.cell a;
      }))
      (λ r h'. (r ≡ true) × (get 1 "pump" h' ≡ done null h'))
unfolding remove name remove_by_pointer load entries has find key_of set_entries modify write detach
    set_parent erase get valueref
remove_renamed = (refl, refl)

-- The entry "motor" leads to the object at 3, which has another name and no parent.
abbrev motors : HashMap String Addr
motors = ("motor", 3) ∷ []

abbrev workshop : Heap
workshop = record plant {
  cell = λ a. if a == 1 then some (named_object "plant" null (manager motors)) else plant.cell a;
}

fix_lem_example : Returns (fix 1 workshop) (λ _ h'. Fixed workshop 1 motors h')
fix_lem_example =
    fix_lem 1 workshop (named_object "plant" null (manager motors)) motors
      (record { stands = refl; kind = refl }) (refl, (named_object "pump" null plain, refl), tt)
