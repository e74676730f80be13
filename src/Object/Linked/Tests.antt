-- ===== src/Object/Linked/Tests.antt =====
-- A subject at 1 and its observer at 2, a manager at 1 with one object at 2, and a manager of that
-- manager: the theorems at these heaps, and runs of them.
use module_flow.Prelude.{
  ℕ, ◌+◌, count, indicator, ◌≡◌, refl, ◌==◌, if◌then◌else◌, none, some, [], ◌∷◌, arith, nat_eq, inl,
  inr, String, string_eq,
}
use module_flow.Container.HashMap.{find, valueref, has, insert_one, erase}
use module_flow.Object.Connections.{observers, slots, add_action, erase_observer}
use module_flow.Object.Heap.{
  null, slot, drop, Object, Heap, Run, done, fault, pure, and_then, modify, load, free, write,
  new_object, plain, manager, Environment,
}
use module_flow.Object.Returns.{Returns}
use module_flow.Object.Signals.{
  delete_signal, connect, add_connection, disconnect, disconnect_signal, emit_with, run_observers,
}
use module_flow.Object.Destroy.{
  destroy, emit, destroy_with, destroy_base, destroy_derived, leave_parent,
}
use module_flow.Object.Linked.Defs.{slots_at, Linked}
use module_flow.Object.Linked.Create.{new_object_lem, empty_heap, empty_heap-Linked, Linked-same}
use module_flow.Object.Linked.Connect.{Connected, connect-Connected}
use module_flow.Object.Linked.Tree.Defs.{
  Tree, node, bare, child, holds_tree, holds_forest, height, forest_height, IsTree, IsForest,
}
use module_flow.Object.Linked.Tree.Claims.{Felled, destroy-Felled}
use module_flow.Object.Linked.Disconnect.{Disconnected, disconnect_signal-Disconnected}
use module_flow.Object.Emission.Counts.{connect-emit}
use module_flow.Object.Linked.Dangling.{disconnect_then_delete}

abbrev calm : Environment
calm = record {
  callback = λ k. pure tt;
  create_module_name = pure "module";
  entry_module = λ key. pure null;
  on_init = λ this. pure tt;
}

abbrev heap_after : {A : Type 0} → Run A → Heap
heap_after (done a h) = h
heap_after _ = empty_heap

abbrev plain_object : String → Object
plain_object name = record { name_ = name; parent_ = null; connections_ = []; derived = plain }

one : Heap
unfolding new_object write
one = heap_after (new_object "subject" plain empty_heap)

two : Heap
unfolding one new_object write
two = heap_after (new_object "observer" plain one)

tied : Heap
unfolding two connect modify add_connection write add_action observers has find valueref insert_one
tied = heap_after (connect 1 5 2 (slot 7) two)

one-Linked : Linked one.cell
unfolding one new_object
one-Linked =
    (new_object_lem "subject" plain empty_heap empty_heap-Linked
      (record { next_ne_null = omega arith; unused = refl })).3

two-Linked : Linked two.cell
unfolding two new_object
two-Linked =
    (new_object_lem "observer" plain one one-Linked
      (record { next_ne_null = unfold one in omega arith; unused = unfold one write in refl })).3

tied_Connected : Connected two 1 5 2 (slot 7) tied
unfolding tied
tied_Connected = connect-Connected two 1 5 2 (slot 7) two-Linked (omega arith) refl (inr refl)

-- The subject lists the observer for signal 5, and each lists the other under DELETE.
tied_slots :
    (slots_at tied.cell 1 5 2 ≡ some (slot 7 ∷ []))
    × (slots_at tied.cell 1 delete_signal 2 ≡ some (drop 2 1 ∷ []))
    × (slots_at tied.cell 2 delete_signal 1 ≡ some (drop 1 2 ∷ []))
unfolding tied slots
tied_slots = (refl, refl, refl)

observer_object : Object
unfolding tied
observer_object = elim (tied.cell 2) [ some o ↦ o | none ↦ plain_object "" ]

subject_object : Object
unfolding tied
subject_object = elim (tied.cell 1) [ some o ↦ o | none ↦ plain_object "" ]

connect-Connected_example : Returns (connect 1 5 2 (slot 7) two) (λ _. Connected two 1 5 2 (slot 7))
unfolding two new_object write
connect-Connected_example =
    connect-Connected two 1 5 2 (slot 7) two-Linked (omega arith) refl (inr refl)

connect-emit_example :
    Returns (emit calm 0 1 5 tied) (λ _ h0.
      Returns
        (and_then (connect 1 5 2 (slot 9) tied) (λ _. emit calm 0 1 5))
        (λ _ h1. (j : ℕ) → count j h1.calls ≡ count j h0.calls + indicator j 9))
    × Returns (and_then (disconnect_signal 1 5 2 tied) (λ _. emit calm 0 1 5)) (λ _ h0.
      Returns
        (and_then
          (connect 1 5 2 (slot 9) tied)
          (λ _ h'. and_then (disconnect_signal 1 5 2 h') (λ _. emit calm 0 1 5)))
        (λ _ h1. (j : ℕ) → count j h1.calls ≡ count j h0.calls))
unfolding tied subject_object observers
connect-emit_example =
    connect-emit calm 0 tied 1 subject_object 5 2 9 (λ k h. refl) tied_Connected.linked refl
      ((tt, tt), tt) (omega arith) (inr refl)

disconnect_signal-Disconnected_example :
    Returns (disconnect_signal 1 5 2 tied) (λ _. Disconnected tied 1 5 2)
unfolding tied
disconnect_signal-Disconnected_example =
    disconnect_signal-Disconnected tied 1 5 2 tied_Connected.linked (omega arith) refl

disconnect_then_delete_example :
    Returns
      (and_then (disconnect 1 2 tied) (λ _. destroy calm 1 1))
      (λ _ h2. emit calm 1 2 delete_signal h2 ≡ fault)
unfolding tied subject_object slots
disconnect_then_delete_example =
    disconnect_then_delete calm 0 tied 1 2 subject_object tied_Connected.linked refl tt (inl refl)
      (omega arith) refl 1

-- The observer's end unties the subject, which then calls nobody.
observer_gone : Returns (destroy calm 1 2 tied) (λ _ h'.
    (slots_at h'.cell 1 5 2 ≡ none) × (Returns (emit calm 1 1 5 h') (λ _ h''. h''.calls ≡ [])))
unfolding tied destroy destroy_with destroy_base destroy_derived load free emit emit_with
    run_observers leave_parent erase_observer erase slots
observer_gone = (refl, refl)

abbrev plant_object : Object
plant_object = record {
  name_ = "plant";
  parent_ = null;
  connections_ = [];
  derived = manager (("pump", 2) ∷ []);
}

abbrev pump_object : Object
pump_object = record { name_ = "pump"; parent_ = 1; connections_ = []; derived = plain }

abbrev plant : Heap
plant = record {
  cell = λ a. if a == 1 then some plant_object else if a == 2 then some pump_object else none;
  next = 3;
  calls = [];
}

plant-Linked : Linked plant.cell
plant-Linked = Linked-same empty_heap.cell plant.cell (λ a. ground arith) refl empty_heap-Linked

-- A site at 3 that owns the plant and, at 4, a lamp.
abbrev site_object : Object
site_object = record {
  name_ = "site";
  parent_ = null;
  connections_ = [];
  derived = manager (("plant", 1) ∷ ("lamp", 4) ∷ []);
}

abbrev owned_plant : Object
owned_plant = record plant_object { parent_ = 3 }

abbrev lamp_object : Object
lamp_object = record { name_ = "lamp"; parent_ = 3; connections_ = []; derived = plain }

abbrev site : Heap
site = record {
  cell = λ a.
      if a == 1
      then some owned_plant
      else if a == 2
      then some pump_object
      else if a == 3
      then some site_object
      else if a == 4
      then some lamp_object
      else none;
  next = 5;
  calls = [];
}

abbrev site_tree : Tree
site_tree =
    node 3
      (child "plant" (node 1 (child "pump" (node 2 bare) bare)) (child "lamp" (node 4 bare) bare))

site-Linked : Linked site.cell
site-Linked = Linked-same empty_heap.cell site.cell (λ a. ground arith) refl empty_heap-Linked

site-IsTree : IsTree site site_tree
unfolding IsTree IsForest holds_tree holds_forest find valueref
site-IsTree = (
  (site_object, refl, refl),
  refl,
  (
    refl,
    (λ b e. ground arith),
    (
      (owned_plant, refl, refl),
      refl,
      (refl, (λ b e. refl), ((pump_object, refl, tt), refl, tt), tt),
    ),
    (refl, (λ b e. refl), ((lamp_object, refl, tt), refl, tt), tt),
  ),
)

destroy-Felled_example : Returns (destroy calm 3 3 site) (λ _ h'. Felled site site_tree h')
unfolding height forest_height
destroy-Felled_example =
    destroy-Felled calm 3 site site_tree site_object site-Linked site-IsTree (omega arith) refl
      (inl refl)
