-- ===== src/Data/Create/Tests.antt =====
-- A mode that is added beside the speed.
use module_flow.Prelude.{◌≡◌, refl, some, arith, if◌then◌else◌, String, string_eq, ◌≢◌}
use module_flow.Container.HashMap.{HashMap, has, find}
use module_flow.Object.Heap.{Addr, null, Object}
use module_flow.Object.Returns.{Returns}
use module_flow.Object.Manager.Laws.{Manages}
use module_flow.Data.Create.{create, kept_name}
use module_flow.Data.Create.Laws.{Holds, create-Holds}
use module_flow.Data.Create.Samples.{Sample, text, alone, speeds, manager_object, desk, desk_values}

create-Holds_example : Returns (create 1 alone 1 "mode" (text "fast") desk_values desk) (λ r h'.
    (q' : Object) × (m' : HashMap String Addr) × Manages h' 1 q' m'
    × ((k : String) (w : Sample) → Holds desk desk_values speeds k w → Holds h' r.1 m' k w)
    × (if has speeds (kept_name "mode")
        then (r.0 ≡ null) × (m' ≡ speeds)
        else (r.0 ≢ null)
          × (find (kept_name "mode") m' ≡ some r.0)
          × (r.1 r.0 ≡ some (text "fast"))
          × ((k : String) → kept_name "mode" ≢ k → find k m' ≡ find k speeds)))
create-Holds_example =
    create-Holds 1 alone 0 desk manager_object speeds desk_values
      (record { stands = refl; kind = refl }) (record { next_ne_null = omega arith; unused = refl })
      "mode" (text "fast")
