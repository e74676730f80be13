-- ===== src/Object/Manager/Laws.antt =====
-- What `add` and `get` do, on every branch.
use module_flow.Prelude.{
  ◌≡◌, refl, sym, ◌∙◌, Bool, some, arith, nat_eq, if◌then◌else◌, ◌≢◌, beq-false, Bool-cases, inl,
  inr, String, string_eq,
}
use module_flow.Container.HashMap.{HashMap, valueref, has, insert_one}
use module_flow.Object.Heap.{
  Addr, null, Object, Heap, done, and_then, Cmd, load, write, Environment, Derived, plain, manager,
  module_object,
}
use module_flow.Object.Returns.{modify_lem, write_self, write-other}
use module_flow.Object.Signals.{set_parent}
use module_flow.Object.Manager.{entries, set_entries, get, name, add, register}

-- At `p` stands a manager with these entries.
pub record Manages (h : Heap) (p : Addr) (q : Object) (m : HashMap String Addr) : Type 0 where
  pub stands : h.cell p ≡ some q
  pub kind : q.derived ≡ manager m

-- At `x` stands an object whose virtual `name()` is Object's.
pub record Named (h : Heap) (x : Addr) (o : Object) : Type 0 where
  pub stands : h.cell x ≡ some o
  pub not_null : x ≢ null
  pub no_module : (s : _) → o.derived ≢ module_object s

pub entries_lem :
    (h : Heap) (p : Addr) (q : Object) (m : HashMap String Addr)
    → Manages h p q m
    → entries p h ≡ done m h
unfolding entries load
entries_lem h p q m g = ground (arith, g.stands, g.kind)

pub set_entries_lem :
    (h : Heap) (p : Addr) (q : Object) (m m' : HashMap String Addr)
    → Manages h p q m
    → set_entries p m' h
      ≡ done tt (record h { cell = write h.cell p (some (record q { derived = manager m' })) })
unfolding set_entries
set_entries_lem h p q m m' g = modify_lem p (λ o. record o { derived = manager m' }) h q g.stands

pub set_parent_lem :
    (h : Heap) (x p : Addr) (o : Object)
    → h.cell x ≡ some o
    → set_parent x p h
      ≡ done tt (record h { cell = write h.cell x (some (record o { parent_ = p })) })
unfolding set_parent
set_parent_lem h x p o e = modify_lem x (λ o. record o { parent_ = p }) h o e

module _ (env : Environment) where
  pub name_lem : (h : Heap) (x : Addr) (o : Object) → Named h x o → name env x h ≡ done o.name_ h
  unfolding name load
  name_lem h x o n = by_class o.derived refl
    where
      by_class : (d : Derived) → o.derived ≡ d → name env x h ≡ done o.name_ h
      by_class plain e = ground (arith, n.stands)
      by_class (manager m) e = ground (arith, n.stands)
      by_class (module_object s) e = absurd (n.no_module s e)

  module _ (del : Addr → Cmd (Unit {0})) where
    -- The heap after an object was registered with a manager.
    unfoldable pub registered : Heap → Addr → Object → HashMap String Addr → Addr → Object → Heap
    registered h this q m obj o = record h {
      cell =
          write (write h.cell obj (some (record o { parent_ = this }))) this
            (some (record q { derived = manager (insert_one o.name_ obj m) }));
    }

    register_lem :
        (h : Heap) (this obj : Addr) (q o : Object) (m : HashMap String Addr)
        → Manages h this q m
        → Named h obj o
        → this ≢ obj
        → register env del this obj h ≡ done obj (registered h this q m obj o)
    unfolding register registered
    register_lem h this obj q o m g n ne = rw (
      set_parent_lem h obj this o n.stands,
      name_lem h1 obj (record o { parent_ = this }) named1,
      entries_lem h1 this q m manages1,
      set_entries_lem h1 this q m (insert_one o.name_ obj m) manages1,
    )
      where
        h1 : Heap
        h1 = record h { cell = write h.cell obj (some (record o { parent_ = this })) }

        named1 : Named h1 obj (record o { parent_ = this })
        named1 = record {
          stands = write_self h.cell obj (some (record o { parent_ = this }));
          not_null = n.not_null;
          no_module = n.no_module;
        }

        manages1 : Manages h1 this q m
        manages1 = record {
          stands =
              write-other h.cell obj this (some (record o { parent_ = this })) (λ e. ne (sym e))
              ∙ g.stands;
          kind = g.kind;
        }

    -- `add`, for a manager and another object with a name of its own. If the name is taken the
    -- result is null, and the object is deleted where that is asked for and left alone otherwise;
    -- if it is free the object is entered under its name, gets the manager as parent, and is
    -- returned.
    pub add_lem :
        (h : Heap) (this obj : Addr) (flag : Bool) (q o : Object) (m : HashMap String Addr)
        → Manages h this q m
        → Named h obj o
        → this ≢ obj
        → add env del this obj flag h ≡ (
            if has m o.name_
            then and_then (if flag then del obj h else done tt h) (λ _. done null)
            else done obj (registered h this q m obj o))
    unfolding add
    add_lem h this obj flag q o m g n ne =
        rw (beq-false obj null n.not_null, name_lem h obj o n, entries_lem h this q m g)
          (elim (Bool-cases (has m o.name_)) [
            | inl y ↦ rw y (elim (Bool-cases flag) [ inl f ↦ rw f | inr f ↦ rw f ])
            | inr z ↦ rw z (register_lem h this obj q o m g n ne)
          ])

    pub registered-Manages :
        (h : Heap) (this obj : Addr) (q o : Object) (m : HashMap String Addr)
        → Manages
            (registered h this q m obj o)
            this
            (record q { derived = manager (insert_one o.name_ obj m) })
            (insert_one o.name_ obj m)
    unfolding registered
    registered-Manages h this obj q o m = record { stands = write_self _ this _; kind = refl }

pub get_lem :
    (h : Heap) (p : Addr) (q : Object) (m : HashMap String Addr) (k : String)
    → Manages h p q m
    → get p k h ≡ done (valueref m k null) h
unfolding get
get_lem h p q m k g = rw (entries_lem h p q m g)
