-- ===== src/Object/Linked/Dangling.antt =====
-- `disconnect(observer)` among linked objects, and the end of the object after it.
use module_flow.Prelude.{
  ℕ, suc, ◌≡◌, refl, sym, ◌∙◌, true, false, some, List, [], ◌∷◌, arith, nat_eq, ◌≢◌, ◌⊎◌, All,
  beq_self, Bool-cases, inl, inr, nat_beq_iff, Option-cases,
}
use module_flow.Container.HashMap.{has, find, valueref, erase}
use module_flow.Container.HashMap.Laws.{find-erase, All-erase}
use module_flow.Object.Connections.{Observers, observers, erase_observer, observers-erase_observer}
use module_flow.Object.Heap.{
  Addr, null, Task, drop, Object, Heap, fault, modify, Environment, Cmd, and_then,
}
use module_flow.Object.Returns.{Returns, Returns-mono, load_lem}
use module_flow.Object.Signals.{delete_signal, disconnect, run_tasks, run_observers, emit_with}
use module_flow.Object.Destroy.{destroy, emit}
use module_flow.Object.Linked.Defs.{links, is_live, connected, IsHook, Linked}
use module_flow.Object.Linked.Sweep.{
  strip_at, strip_at_lem, strip_at-live, hook_tasks, disconnect_lem,
}
use module_flow.Object.Linked.Leaf.{destroy-leaf}
use module_flow.Object.Linked.Leaving.{IsLeaf, delete_table, Swept, Deletable}
use module_flow.Object.Linked.Delete.{
  Linked-Deletable, AllLive-entries, has-connected, connected-live,
}

module _ (env : Environment) (del : Addr → Cmd (Unit {0})) where
  dead_tasks :
      (h : Heap) (o x : Addr) (ts : List Task)
      → is_live (h.cell o) ≡ false
      → ts ≢ []
      → All (λ t. t ≡ drop o x) ts
      → run_tasks env del ts h ≡ fault
  unfolding run_tasks disconnect modify
  dead_tasks h o x [] d n l = absurd (n refl)
  dead_tasks h o x (t ∷ ts) d n (e, l) = rw e (ground arith)

  -- A table of hooks, one of them to an object that is gone.
  run_observers-dead :
      (h : Heap) (x a : Addr) (m : Observers Task)
      → All (IsHook x) m
      → has m a ≡ true
      → is_live (h.cell a) ≡ false
      → run_observers env del m h ≡ fault
  unfolding run_observers has find
  run_observers-dead h x a [] k e d = cc
  run_observers-dead h x a ((o, ts) ∷ m) (hook, k) e d = elim (Bool-cases (is_live (h.cell o))) [
    | inl live ↦ rw (hook_tasks env del h o x ts live hook.1 hook.2) (
        run_observers-dead (record h { cell = strip_at x h.cell o }) x a m k
          (ground (arith, nat_beq_iff o a)) (strip_at-live x h.cell o a ∙ d))
    | inr dead ↦ rw (dead_tasks h o x ts dead hook.1 hook.2)
  ]

emit-dead :
    (env : Environment) (fuel : ℕ) (h : Heap) (x a : Addr)
    → All (IsHook x) (delete_table h x)
    → connected h.cell x delete_signal a ≡ true
    → is_live (h.cell a) ≡ false
    → emit env fuel x delete_signal h ≡ fault
unfolding emit emit_with
emit-dead env fuel h x a k e d = elim (Option-cases (h.cell x)) [
  | inl q ↦ absurd (ground (arith, connected-live h.cell x a delete_signal e))
  | inr (ob, q) ↦ elim (Bool-cases (has ob.connections_ delete_signal)) [
    | inl y ↦
        rw (load_lem x h ob q, y)
          (run_observers-dead env (destroy env fuel) h x a (observers ob.connections_ delete_signal)
            (ground (arith, k)) (listed ob q) d)
    | inr n ↦ absurd (unlisted ob n (listed ob q))
  ]
]
  where
    listed :
        (ob : Object) → h.cell x ≡ some ob → has (observers ob.connections_ delete_signal) a ≡ true
    listed ob q = rw q at (has-connected h.cell x delete_signal a ∙ e)

    unlisted :
        (ob : Object)
        → has ob.connections_ delete_signal ≡ false
        → has (observers ob.connections_ delete_signal) a ≡ true
        → ⊥
    unlisted ob n y = unfold has observers valueref find in ground arith

module _ (env : Environment) (fuel : ℕ) (h : Heap) (a o : Addr) (ob : Object) (l : Linked h.cell)
    (stands : h.cell a ≡ some ob) (leaf : IsLeaf ob.derived)
    (parent : (ob.parent_ ≡ null) ⊎ (is_live (h.cell ob.parent_) ≡ true)) (other : a ≢ o)
    (linked : connected h.cell a delete_signal o ≡ true) where
  -- The heap after `a->disconnect(o)`.
  unhooked : Heap
  unhooked = record h { cell = strip_at o h.cell a }

  unhooked_object : Object
  unhooked_object = record ob { connections_ = erase_observer o ob.connections_ }

  unhooked_stands : unhooked.cell a ≡ some unhooked_object
  unfolding unhooked unhooked_object
  unhooked_stands = ground (arith, strip_at_lem o h.cell a a, beq_self a)

  unhooked_table : delete_table unhooked a ≡ erase o (delete_table h a)
  unfolding unhooked_object
  unhooked_table =
      rw (unhooked_stands, stands) (observers-erase_observer o ob.connections_ delete_signal)

  unhooked-Deletable : Deletable unhooked a unhooked_object
  unfolding unhooked unhooked_object
  unhooked-Deletable = record {
    stands = unhooked_stands;
    not_null = d.not_null;
    leaf = leaf;
    parent_ok = elim parent [
      | inl e ↦ inl e
      | inr e ↦ inr (strip_at-live o h.cell a ob.parent_ ∙ e)
    ];
    live = AllLive-entries unhooked.cell (delete_table unhooked a) alive;
    hooks = rw unhooked_table (All-erase (IsHook a) o (delete_table h a) d.hooks);
  }
    where
      d : Deletable h a ob
      d = Linked-Deletable h a ob l stands leaf parent

      still_listed :
          (p : Addr)
          → has (erase o (delete_table h a)) p ≡ true
          → connected h.cell a delete_signal p ≡ true
      still_listed p y =
          sym (has-connected h.cell a delete_signal p)
          ∙ (unfold has in ground (arith, find-erase o p (delete_table h a)))

      alive : (p : Addr) → has (delete_table unhooked a) p ≡ true → is_live (unhooked.cell p) ≡ true
      alive p y =
          strip_at-live o h.cell a p
          ∙ connected-live h.cell p a delete_signal
              (l.back a p (still_listed p (rw unhooked_table at y)))

  -- After `a->disconnect(o)` and `delete a`, the observer has its hook for `a` still, so `delete o`
  -- runs into it.
  left_over : (k : ℕ) (h2 : Heap) → Swept unhooked a h2 → emit env k o delete_signal h2 ≡ fault
  unfolding unhooked
  left_over k h2 w =
      emit-dead env k h2 o a (rw same_links (l.hooks o)) (rw same_links (l.back a o linked))
        (rw w.gone refl)
    where
      unlisted : has (delete_table unhooked a) o ≡ false
      unlisted =
          rw unhooked_table
            (unfold has in ground (arith, find-erase o o (delete_table h a), beq_self o))

      same_links : links (h2.cell o) ≡ links (h.cell o)
      same_links = ground (
        arith,
        w.rest o (λ e. other (sym e)),
        unlisted,
        strip_at_lem o h.cell a o,
        nat_beq_iff a o,
      )

  -- In a heap of linked objects, take an object that is no manager and whose parent, if any, is alive,
  -- and another that it is tied to by slots of either for the other. If the first is told to
  -- `disconnect(Object*)` the second and is then deleted, both calls return, but the DELETE signal of
  -- the second, with which its own destructor begins, calls a member of the freed first one.
  pub disconnect_then_delete :
      (k : ℕ)
      → Returns
          (and_then (disconnect a o h) (λ _. destroy env (suc fuel) a))
          (λ _ h2. emit env k o delete_signal h2 ≡ fault)
  unfolding unhooked
  disconnect_then_delete k = rw (disconnect_lem h a o (rw stands)) (
      Returns-mono (destroy env (suc fuel) a unhooked) (λ _ h2. Swept unhooked a h2)
        (λ _ h2. emit env k o delete_signal h2 ≡ fault)
        (destroy-leaf env fuel a unhooked unhooked_object unhooked-Deletable)
        λ _ h2 w. left_over k h2 w)
