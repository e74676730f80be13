-- ===== src/Object/Manager/Removal.antt =====
-- What the two forms of `remove` do, on every branch.
use module_flow.Prelude.{
  ◌≡◌, ◌∙◌, Bool, true, false, Option, none, some, arith, nat_eq, if◌then◌else◌, ◌≢◌, beq-false,
  Bool-cases, inl, inr, Option-cases, String, string_eq,
}
use module_flow.Container.HashMap.{HashMap, find, valueref, has, erase}
use module_flow.Object.Heap.{
  Addr, null, Object, Heap, done, and_then, Cmd, write, Environment, manager,
}
use module_flow.Object.Returns.{write-other}
use module_flow.Object.Manager.{set_entries, remove, remove_name, detach, remove_by_pointer, key_of}
use module_flow.Object.Manager.Laws.{
  Manages, Named, entries_lem, set_entries_lem, set_parent_lem, name_lem, get_lem,
}

module _ (env : Environment) (del : Addr → Cmd (Unit {0})) where
  -- The heap after the entry `k` of a manager was erased and the object left without a parent.
  unfoldable pub released :
      Heap → Addr → Object → HashMap String Addr → String → Addr → Object → Heap
  released h this q m k obj o = record h {
    cell =
        write (write h.cell this (some (record q { derived = manager (erase k m) }))) obj
          (some (record o { parent_ = null }));
  }

  release_lem :
      (h : Heap) (this obj : Addr) (flag : Bool) (q o : Object) (m : HashMap String Addr)
      (k : String)
      → Manages h this q m
      → h.cell obj ≡ some o
      → this ≢ obj
      → and_then (set_entries this (erase k m) h) (λ _. detach env del obj flag)
        ≡ and_then
            (if flag
              then del obj (released h this q m k obj o)
              else done tt (released h this q m k obj o))
            (λ _. done true)
  unfolding detach released
  release_lem h this obj flag q o m k g e ne =
      rw
        (
          set_entries_lem h this q m (erase k m) g,
          set_parent_lem h1 obj null o (write-other h.cell this obj _ ne ∙ e),
        )
        (elim (Bool-cases flag) [ inl f ↦ rw f | inr f ↦ rw f ])
    where
      h1 : Heap
      h1 = record h { cell = write h.cell this (some (record q { derived = manager (erase k m) })) }

  -- The heaps that `remove` may end in, before a deletion that is asked for.
  abbrev pub remove_key : HashMap String Addr → Addr → Object → Option String
  remove_key m obj o = if has m o.name_ then some o.name_ else key_of obj m

  -- `remove(obj)`, for a manager and another object with a name of its own: the entry that goes is
  -- the one under the name of the object, to whatever object it leads; only where the name is no
  -- key is it the first that leads to the object. Without either the result is false and nothing
  -- changes. Otherwise it is true, the object has no parent, and is deleted if that is asked for.
  pub remove_lem :
      (h : Heap) (this obj : Addr) (flag : Bool) (q o : Object) (m : HashMap String Addr)
      → Manages h this q m
      → Named h obj o
      → this ≢ obj
      → remove env del this obj flag h ≡ (elim (remove_key m obj o) [
        | none ↦ done false h
        | some k ↦
            and_then
              (if flag
                then del obj (released h this q m k obj o)
                else done tt (released h this q m k obj o))
              (λ _. done true)
      ])
  unfolding remove remove_by_pointer
  remove_lem h this obj flag q o m g n ne =
      rw (beq-false obj null n.not_null, name_lem env h obj o n, entries_lem h this q m g)
        (elim (Bool-cases (has m o.name_)) [
          | inl y ↦ rw y (release_lem h this obj flag q o m o.name_ g n.stands ne)
          | inr z ↦ rw z (elim (Option-cases (key_of obj m)) [
            | inl u ↦ rw (u, remove_by_pointer)
            | inr (k, u) ↦
                rw (u, remove_by_pointer) (release_lem h this obj flag q o m k g n.stands ne)
          ])
        ])

  pub remove_name_lem :
      (h : Heap) (this obj : Addr) (flag : Bool) (q o : Object) (m : HashMap String Addr)
      (k : String)
      → Manages h this q m
      → find k m ≡ some obj
      → Named h obj o
      → this ≢ obj
      → remove_name env del this k flag h
        ≡ and_then
            (if flag
              then del obj (released h this q m k obj o)
              else done tt (released h this q m k obj o))
            (λ _. done true)
  unfolding remove_name
  remove_name_lem h this obj flag q o m k g e n ne =
      rw
        (
          get_lem h this q m k g,
          entries_lem h this q m g,
          found,
          present,
          beq-false obj null n.not_null,
        )
        (release_lem h this obj flag q o m k g n.stands ne)
    where
      found : valueref m k null ≡ obj
      found = unfold valueref in ground (arith, e)

      present : has m k ≡ true
      present = unfold has in ground (arith, e)
