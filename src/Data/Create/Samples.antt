-- ===== src/Data/Create/Samples.antt =====
-- A data manager at 1 with the number 5 under "speed", and an environment in which nothing happens.
use module_flow.Prelude.{ℕ, zero, suc, none, some, [], ◌∷◌, ◌==◌, nat_eq, if◌then◌else◌, String}
use module_flow.Container.HashMap.{HashMap}
use module_flow.Object.Heap.{Addr, null, Object, Heap, Environment, plain, manager, pure}
use module_flow.Data.Create.{Values}

pub data Sample : Type 0 where
  number : ℕ → Sample
  text : String → Sample

abbrev pub sample_type : Sample → ℕ
sample_type (number n) = 0
sample_type (text t) = 1

abbrev pub sample_initial : ℕ → Sample
sample_initial zero = number 0
sample_initial (suc n) = text ""

abbrev pub alone : Environment
alone = record {
  callback = λ k. pure tt;
  create_module_name = pure "module";
  entry_module = λ key. pure null;
  on_init = λ this. pure tt;
}

abbrev pub speeds : HashMap String Addr
speeds = ("speed", 2) ∷ []

abbrev pub manager_object : Object
manager_object = record {
  name_ = "drive_data";
  parent_ = null;
  connections_ = [];
  derived = manager speeds;
}

abbrev pub desk : Heap
desk = record {
  cell = λ a.
      if a == 1
      then some manager_object
      else if a == 2
      then some (record { name_ = "speed"; parent_ = 1; connections_ = []; derived = plain })
      else none;
  next = 3;
  calls = [];
}

abbrev pub desk_values : Values Sample
desk_values a = if a == 2 then some (number 5) else none
