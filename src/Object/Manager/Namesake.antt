-- ===== src/Object/Manager/Namesake.antt =====
-- Registration and release seen through `get`, and an object that shares the name of another.
use module_flow.Prelude.{
  ◌≡◌, refl, sym, ap, ◌∙◌, Bool, true, false, some, arith, ◌==◌, nat_eq, if◌then◌else◌, ◌≢◌,
  beq_self, String, string_eq,
}
use module_flow.Container.HashMap.{HashMap, find, valueref, has, insert_one, erase}
use module_flow.Container.HashMap.Laws.{find-insert_one, find-erase}
use module_flow.Object.Heap.{Addr, null, Object, Heap, done, Cmd, Environment, manager}
use module_flow.Object.Returns.{Returns, load_lem, write_self, write-other}
use module_flow.Object.Signals.{parent}
use module_flow.Object.Manager.{get, add, remove}
use module_flow.Object.Manager.Laws.{
  Manages, Named, add_lem, registered, registered-Manages, get_lem,
}
use module_flow.Object.Manager.Removal.{released, remove_lem}

module _ (env : Environment) (del : Addr → Cmd (Unit {0})) (h : Heap) (this obj : Addr)
    (q o : Object) (m : HashMap String Addr) (g : Manages h this q m) (n : Named h obj o)
    (ne : this ≢ obj) where
  entered : Heap
  entered = registered env del h this q m obj o

  entered-get :
      (k : String)
      → get this k entered ≡ done (if o.name_ == k then obj else valueref m k null) entered
  unfolding entered
  entered-get k =
      get_lem entered this _ _ k (registered-Manages env del h this obj q o m)
      ∙ ap (λ a. done a entered)
          (unfold valueref in ground (arith, find-insert_one o.name_ k obj m))

  entered-parent : parent obj entered ≡ done this entered
  unfolding entered registered parent
  entered-parent = rw (
      load_lem obj entered (record o { parent_ = this })
        (write-other _ this obj _ ne ∙ write_self h.cell obj (some (record o { parent_ = this }))))

  -- An object whose name is free in a manager is registered by `add`: the result is the object,
  -- the manager finds it under its name and every other name as before, and the manager is its
  -- parent. A second `add` of an object of that name is refused, and changes nothing if no deletion
  -- is asked for.
  pub add-get :
      has m o.name_ ≡ false
      → (flag : Bool)
      → Returns (add env del this obj flag h) (λ r h'.
        (r ≡ obj)
        × ((k : String) → get this k h' ≡ done (if o.name_ == k then obj else valueref m k null) h')
        × (parent obj h' ≡ done this h')
        × ((x : Addr) (p : Object)
            → Named h' x p
            → p.name_ ≡ o.name_
            → this ≢ x
            → add env del this x false h' ≡ done null h'))
  unfolding entered
  add-get free flag =
      rw (add_lem env del h this obj flag q o m g n ne, free)
        (refl, entered-get, entered-parent, refused)
    where
      refused :
          (x : Addr) (p : Object)
          → Named entered x p
          → p.name_ ≡ o.name_
          → this ≢ x
          → add env del this x false entered ≡ done null entered
      refused x p nx same nex =
          add_lem env del entered this x false _ p _ (registered-Manages env del h this obj q o m)
            nx nex
          ∙ rw (taken)
        where
          taken : has (insert_one o.name_ obj m) p.name_ ≡ true
          taken =
              unfold has in
              rw same (ground (arith, find-insert_one o.name_ o.name_ obj m, beq_self o.name_))

  -- `remove(obj, false)` of an object that the manager does not hold, but whose name is that of an
  -- object that it holds: the result is true, and the manager no longer finds the other object.
  pub remove_evicts_namesake :
      (b : Addr)
      → find o.name_ m ≡ some b
      → b ≢ obj
      → Returns (remove env del this obj false h) (λ r h'.
        (r ≡ true) × (get this o.name_ h ≡ done b h) × (get this o.name_ h' ≡ done null h'))
  unfolding released
  remove_evicts_namesake b held other =
      rw (remove_lem env del h this obj false q o m g n ne, present)
        (refl, get_lem h this q m o.name_ g ∙ ap (λ a. done a h) found, lost)
    where
      present : has m o.name_ ≡ true
      present = unfold has in ground (arith, held)

      found : valueref m o.name_ null ≡ b
      found = unfold valueref in ground (arith, held)

      after : Heap
      after = released env del h this q m o.name_ obj o

      lost : get this o.name_ after ≡ done null after
      lost =
          get_lem after this (record q { derived = manager (erase o.name_ m) }) (erase o.name_ m)
            o.name_
            (record {
              stands = write-other _ obj this _ (λ e. ne (sym e)) ∙ write_self h.cell this _;
              kind = refl;
            })
          ∙ ap (λ a. done a after)
              (unfold valueref in ground (arith, find-erase o.name_ o.name_ m, beq_self o.name_))
