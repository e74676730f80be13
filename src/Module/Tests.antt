-- ===== src/Module/Tests.antt =====
-- A module "plant" at 1, observed by a client for its first state, and a plain object at 2.
use module_flow.Prelude.{
  ◌≡◌, refl, inl, none, some, [], ◌∷◌, arith, ◌==◌, nat_eq, if◌then◌else◌, string_eq,
}
use module_flow.Container.HashMap.{has, find, valueref}
use module_flow.Object.Connections.{observers, Connections}
use module_flow.Object.Heap.{
  null, Object, Heap, fault, and_then, pure, Environment, slot, Task, plain, module_object,
  ModuleStateSignal, gonna_init, inited, gonna_idle, idle, deinit, deinited,
}
use module_flow.Object.Returns.{Returns}
use module_flow.Object.Signals.{delete_signal}
use module_flow.Object.Destroy.{destroy, emit}
use module_flow.Object.Linked.Leaving.{Deletable}
use module_flow.Module.{adopt_object, start_to_init, start_to_idle, start_to_deinit, signal_of}
use module_flow.Module.Adopt.{adopt_then_delete}
use module_flow.Object.Emission.{OnlySlots}
use module_flow.Module.Start.{IsQuiet, Started, start-Started}

abbrev clients : Environment
clients = record {
  callback = λ k. pure tt;
  create_module_name = pure "module";
  entry_module = λ key. pure 9;
  on_init = λ this. pure tt;
}

abbrev watchers : Connections Task
watchers = (0x0110, (0, slot 5 ∷ []) ∷ []) ∷ []

abbrev plant : Object
plant = record {
  name_ = "plant";
  parent_ = null;
  connections_ = watchers;
  derived = module_object none;
}

abbrev pump : Object
pump = record { name_ = "pump"; parent_ = null; connections_ = []; derived = plain }

abbrev site : Heap
site = record {
  cell = λ a. if a == 1 then some plant else if a == 2 then some pump else none;
  next = 3;
  calls = [];
}

pump-Deletable : Deletable site 2 pump
unfolding observers valueref find
pump-Deletable = record {
  stands = refl;
  not_null = omega arith;
  leaf = tt;
  parent_ok = inl refl;
  live = tt;
  hooks = tt;
}

adopt_then_delete_example :
    Returns
      (and_then (adopt_object 1 2 site) (λ _. destroy clients 1 2))
      (λ _ h2. emit clients 1 1 delete_signal h2 ≡ fault)
unfolding observers valueref find has
adopt_then_delete_example =
    adopt_then_delete clients 0 site 1 2 plant pump refl refl pump-Deletable (omega arith) refl 0

clients-IsQuiet : IsQuiet clients 1 "plant" 9
clients-IsQuiet = record { callback = λ k h. refl; on_init = λ h. refl; entry_module = λ h. refl }

only_slots : (t : ModuleStateSignal) → OnlySlots (observers watchers (signal_of t))
unfolding observers valueref find signal_of
only_slots gonna_init = ((tt, tt), tt)
only_slots inited = tt
only_slots gonna_idle = tt
only_slots idle = tt
only_slots deinit = tt
only_slots deinited = tt

start-Started_example :
    Returns (start_to_init clients 1 1 site) (λ _ h'. Started site 1 plant 9 gonna_init inited h')
    × Returns (start_to_idle clients 1 1 site) (λ _ h'. Started site 1 plant 9 gonna_idle idle h')
    × Returns (start_to_deinit clients 1 1 site) (λ _ h'. Started site 1 plant 9 deinit deinited h')
start-Started_example =
    start-Started clients 1 1 "plant" 9 clients-IsQuiet site plant none refl refl refl (λ e. cc)
      only_slots
