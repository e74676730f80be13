-- ===== src/Loop/Tests.antt =====
-- The manager of loops at 1, without entries.
use module_flow.Prelude.{
  ◌≡◌, refl, none, some, [], ◌∷◌, arith, Bool, true, false, Option, ◌≢◌, ◌==◌, nat_eq,
  if◌then◌else◌, String, string_eq,
}
use module_flow.Container.HashMap.{find, HashMap, has, valueref}
use module_flow.Object.Heap.{
  Addr, null, Object, Heap, done, Cmd, Environment, manager, pure, undefined_object_name, ◌>>=◌,
  plain,
}
use module_flow.Object.Returns.{Returns}
use module_flow.Object.Manager.{get as manager_get}
use module_flow.Loop.{loop_pool, create, get}
use module_flow.Loop.Names.{create_lem}
use module_flow.Loop.Default.{get_default_lem}

abbrev outside : Environment
outside = record {
  callback = λ k. pure tt;
  create_module_name = pure "module";
  entry_module = λ key. pure null;
  on_init = λ this. pure tt;
}

abbrev no_delete : Addr → Cmd (Unit {0})
no_delete x = pure tt

abbrev no_loops : HashMap String Addr
no_loops = []

abbrev loops : Object
loops = record {
  name_ = "mflow_global_loop_manager";
  parent_ = null;
  connections_ = [];
  derived = manager no_loops;
}

abbrev start : Heap
start = record { cell = λ a. if a == 1 then some loops else none; next = 2; calls = [] }

create_lem_example : Returns (create 1 outside no_delete "pool" loop_pool start) (λ p h'.
    (start.cell p ≡ none)
    × ((k : String)
        → manager_get 1 k h'
          ≡ done
              (if undefined_object_name == k
                then (if has no_loops undefined_object_name then valueref no_loops k null else p)
                else valueref no_loops k null)
              h'))
create_lem_example =
    create_lem outside no_delete start 1 loops no_loops (record { stands = refl; kind = refl })
      (record { next_ne_null = omega arith; unused = refl }) "pool"

abbrev one_loop : HashMap String Addr
one_loop = ("@undefined", 2) ∷ []

abbrev loops_and_pool : Heap
loops_and_pool = record {
  cell = λ a.
      if a == 1
      then some (record loops { derived = manager one_loop })
      else if a == 2
      then some (record {
        name_ = undefined_object_name;
        parent_ = 1;
        connections_ = [];
        derived = plain;
      })
      else none;
  next = 3;
  calls = [];
}

get_default_lem_example :
    ((d : Bool) (s : Option Addr)
      → get 1 "@undefined" d s loops_and_pool
        ≡ done (valueref one_loop "@undefined" null, s) loops_and_pool)
    × ((s : Option Addr) → get 1 "arm" false s loops_and_pool ≡ done (null, s) loops_and_pool)
    × Returns
        ((get 1 "arm" true none >>= λ r1. get 1 "cell" true r1.1 >>= λ r2. pure (r1.0, r2.0, r2.1))
          loops_and_pool)
        (λ (p1, p2, s) h'.
          (loops_and_pool.cell p1 ≡ none)
          × (p1 ≢ null)
          × (p2 ≡ p1)
          × (s ≡ some p1)
          × ((k : String) → manager_get 1 k h' ≡ done (valueref one_loop k null) h'))
unfolding valueref find
get_default_lem_example =
    get_default_lem loops_and_pool 1 (record loops { derived = manager one_loop }) one_loop
      "@undefined" "arm" "cell" (record { stands = refl; kind = refl })
      (record { next_ne_null = omega arith; unused = refl }) (omega arith) refl refl
