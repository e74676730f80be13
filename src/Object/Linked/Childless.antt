-- ===== src/Object/Linked/Childless.antt =====
-- The end of an object that has no parent, no connections and no derived part.
use module_flow.Prelude.{ℕ, suc, ◌≡◌, none, some, [], nat_eq, ◌≢◌, beq-false, String, string_eq}
use module_flow.Container.HashMap.{has, find}
use module_flow.Object.Heap.{Addr, null, Object, Heap, done, Environment, plain, write}
use module_flow.Object.Returns.{modify_lem, load_lem, free_lem, write_self}
use module_flow.Object.Signals.{emit_with}
use module_flow.Object.Destroy.{destroy, destroy_with, destroy_base, destroy_derived, leave_parent}

abbrev pub new_plain : String → Object
new_plain name = record { name_ = name; parent_ = null; connections_ = []; derived = plain }

pub destroy-new_plain :
    (env : Environment) (f : ℕ) (h : Heap) (x : Addr) (name : String)
    → h.cell x ≡ some (new_plain name)
    → x ≢ null
    → destroy env (suc f) x h
      ≡ done tt (record h { cell = write (write h.cell x (some (new_plain name))) x none })
unfolding destroy destroy_with destroy_derived destroy_base emit_with leave_parent has find
destroy-new_plain env f h x name e n = rw (
  beq-false x null n,
  load_lem x h (new_plain name) e,
  modify_lem x (λ o. record o { derived = plain }) h (new_plain name) e,
  load_lem x h1 (new_plain name) e1,
  load_lem x h1 (new_plain name) e1,
  free_lem x h1 (new_plain name) e1,
)
  where
    h1 : Heap
    h1 = record h { cell = write h.cell x (some (new_plain name)) }

    e1 : h1.cell x ≡ some (new_plain name)
    e1 = write_self h.cell x (some (new_plain name))
