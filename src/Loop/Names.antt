-- ===== src/Loop/Names.antt =====
-- The name under which `create` registers a loop.
use module_flow.Prelude.{
  suc, ◌≡◌, sym, ap, ◌∙◌, false, none, some, [], arith, ◌==◌, nat_eq, if◌then◌else◌, ◌≢◌, String,
  string_eq, Bool-cases, inl, inr,
}
use module_flow.Container.HashMap.{HashMap, valueref, has}
use module_flow.Container.HashMap.Laws.{find-insert_one}
use module_flow.Object.Heap.{
  Addr, null, Object, Heap, done, Cmd, Environment, write, new_object, plain, undefined_object_name,
}
use module_flow.Object.Returns.{Returns, write_self, write-other}
use module_flow.Object.Manager.{get as manager_get}
use module_flow.Object.Manager.Laws.{
  Manages, Named, add_lem, registered, registered-Manages, get_lem,
}
use module_flow.Object.Linked.Create.{Fresh}
use module_flow.Loop.{loop_pool, new_loop_object, create}

module _ (env : Environment) (del : Addr → Cmd (Unit {0})) (h : Heap) (mgr : Addr) (q : Object)
    (m : HashMap String Addr) (g : Manages h mgr q m) (f : Fresh h) where
  abbrev loop_object : Object
  loop_object = record {
    name_ = undefined_object_name;
    parent_ = null;
    connections_ = [];
    derived = plain;
  }

  -- The store with the new loop.
  made : Heap
  made = record h { cell = write h.cell h.next (some loop_object); next = suc h.next }

  apart : h.next ≢ mgr
  apart e = ground (arith, f.unused, g.stands, e)

  made-Manages : Manages made mgr q m
  unfolding made
  made-Manages = record {
    stands = write-other h.cell h.next mgr (some loop_object) apart ∙ g.stands;
    kind = g.kind;
  }

  made-Named : Named made h.next loop_object
  unfolding made
  made-Named = record {
    stands = write_self h.cell h.next (some loop_object);
    not_null = f.next_ne_null;
    no_module = λ s e. cc;
  }

  -- Whatever name a pool is asked for, `create` returns a new object and registers it as
  -- "@undefined", where no loop has that name yet; where one has, the new object is registered under
  -- no name, and is returned all the same. All other names are found as before.
  pub create_lem :
      (name : String)
      → Returns (create mgr env del name loop_pool h) (λ p h'.
        (h.cell p ≡ none)
        × ((k : String)
            → manager_get mgr k h'
              ≡ done
                  (if undefined_object_name == k
                    then (if has m undefined_object_name then valueref m k null else p)
                    else valueref m k null)
                  h'))
  unfolding create new_loop_object new_object made
  create_lem name =
      rw
        (add_lem env del made mgr h.next false q loop_object m made-Manages made-Named
          (λ e. apart (sym e)))
        (elim (Bool-cases (has m undefined_object_name)) [
          | inl y ↦ rw y (
            f.unused,
            λ k. get_lem made mgr q m k made-Manages ∙ ap (λ a. done a made) (ground arith),
          )
          | inr n ↦ rw n (
            f.unused,
            λ k.
                get_lem (registered env del made mgr q m h.next loop_object) mgr _ _ k
                  (registered-Manages env del made mgr h.next q loop_object m)
                ∙ ap (λ a. done a (registered env del made mgr q m h.next loop_object))
                    (unfold valueref in
                      ground (arith, find-insert_one undefined_object_name k h.next m)),
          )
        ])
