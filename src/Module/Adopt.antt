-- ===== src/Module/Adopt.antt =====
-- An adopted object that is deleted before its module.
use module_flow.Prelude.{
  ℕ, suc, ◌≡◌, ◌∙◌, true, false, Option, none, some, [], ◌∷◌, arith, ◌==◌, nat_eq, ◌≢◌, nat_beq_iff,
  inl, inr, Bool-cases, Option-cases, beq-false,
}
use module_flow.Container.HashMap.{has, find, valueref, insert_one}
use module_flow.Object.Connections.{Observers, observers, add_action, observers-add_action, slots}
use module_flow.Object.Heap.{
  Addr, null, Object, Heap, done, fault, and_then, write, Environment, delete_object, Task, load,
}
use module_flow.Object.Returns.{
  Returns, Returns-mono, load_lem, modify_lem, write_self, write-other,
}
use module_flow.Object.Signals.{delete_signal, connect, add_connection, emit_with, run_observers}
use module_flow.Object.Destroy.{destroy, emit, destroy_with}
use module_flow.Object.Linked.Defs.{is_live}
use module_flow.Object.Linked.Leaf.{destroy-leaf}
use module_flow.Object.Linked.Leaving.{delete_table, Swept, Deletable}
use module_flow.Object.Linked.Sweep.{AllLive}
use module_flow.Module.{adopt_object}

AllLive-same :
    (c c' : Addr → Option Object)
    → ((a : Addr) → is_live (c' a) ≡ is_live (c a))
    → (m : Observers Task) → AllLive c m
    → AllLive c' m
AllLive-same c c' e [] l = tt
AllLive-same c c' e ((o, ts) ∷ m) (p, l) = (e o ∙ p, AllLive-same c c' e m l)

load_gone : (p : Addr) (h : Heap) → h.cell p ≡ none → load p h ≡ fault
unfolding load
load_gone p h g = ground arith

destroy_gone :
    (env : Environment) (k : ℕ) (h : Heap) (obj : Addr)
    → h.cell obj ≡ none
    → obj ≢ null
    → destroy env (suc k) obj h ≡ fault
unfolding destroy destroy_with
destroy_gone env k h obj g n = rw (beq-false obj null n, load_gone obj h g)

-- A table whose one task deletes an object that is gone.
dangling_task :
    (env : Environment) (k : ℕ) (h : Heap) (this obj : Addr)
    → delete_table h this ≡ (obj, delete_object obj ∷ []) ∷ []
    → h.cell obj ≡ none
    → obj ≢ null
    → emit env (suc k) this delete_signal h ≡ fault
unfolding emit emit_with
dangling_task env k h this obj e g n = elim (Option-cases (h.cell this)) [
  | inl q ↦ absurd (unfold observers valueref find in ground (arith, rw q at e))
  | inr (ob, q) ↦
      rw (load_lem this h ob q, listed ob q, table ob q)
        (unfold run_observers in rw (destroy_gone env k h obj g n))
]
  where
    table :
        (ob : Object)
        → h.cell this ≡ some ob
        → observers ob.connections_ delete_signal ≡ (obj, delete_object obj ∷ []) ∷ []
    table ob q = rw q at e

    listed : (ob : Object) → h.cell this ≡ some ob → has ob.connections_ delete_signal ≡ true
    listed ob q = unfold has observers valueref find in ground (arith, rw q at e)

module _ (env : Environment) (fuel : ℕ) (h : Heap) (this obj : Addr) (m o : Object)
    (stands : h.cell this ≡ some m) (empty : delete_table h this ≡ []) (d : Deletable h obj o)
    (ne : this ≢ obj) (apart : has (delete_table h obj) this ≡ false) where
  holder : Object
  holder = record m {
    connections_ = add_action m.connections_ delete_signal obj (delete_object obj);
  }

  adopted : Heap
  unfolding holder
  adopted = record h { cell = write h.cell this (some holder) }

  adopt_object_lem : adopt_object this obj h ≡ done tt adopted
  unfolding adopt_object connect add_connection adopted holder
  adopt_object_lem =
      rw
        (modify_lem this
          (λ o. record o {
            connections_ = add_action o.connections_ delete_signal obj (delete_object obj);
          })
          h m stands)
        (ground arith)

  adopted-this : adopted.cell this ≡ some holder
  unfolding adopted
  adopted-this = write_self h.cell this (some holder)

  adopted-others : (a : Addr) → this ≢ a → adopted.cell a ≡ h.cell a
  unfolding adopted
  adopted-others a n = write-other h.cell this a (some holder) n

  adopted-table : delete_table adopted this ≡ (obj, delete_object obj ∷ []) ∷ []
  unfolding holder slots find insert_one
  adopted-table = rw adopted-this (
      observers-add_action m.connections_ delete_signal obj (delete_object obj) delete_signal
      ∙ rw (rw stands at empty))

  adopted-live : (a : Addr) → is_live (adopted.cell a) ≡ is_live (h.cell a)
  adopted-live a = elim (Bool-cases (this == a)) [
    | inl y ↦ rw (← (nat_beq_iff this a).0 y, adopted-this, stands)
    | inr n ↦ rw (adopted-others a (λ e. ground (arith, nat_beq_iff this a)))
  ]

  adopted-Deletable : Deletable adopted obj o
  adopted-Deletable = record {
    stands = adopted-others obj ne ∙ d.stands;
    not_null = d.not_null;
    leaf = d.leaf;
    parent_ok = elim d.parent_ok [ inl n ↦ inl n | inr l ↦ inr (adopted-live o.parent_ ∙ l) ];
    live =
        rw (adopted-others obj ne)
          (AllLive-same h.cell adopted.cell adopted-live (delete_table h obj) d.live);
    hooks = rw (adopted-others obj ne) d.hooks;
  }

  -- The module still has the task that deletes the object.
  left_over :
      (k : ℕ) (h2 : Heap) → Swept adopted obj h2 → emit env (suc k) this delete_signal h2 ≡ fault
  left_over k h2 w = dangling_task env k h2 this obj table w.gone d.not_null
    where
      unlisted : has (delete_table adopted obj) this ≡ false
      unlisted = rw (adopted-others obj ne) apart

      table : delete_table h2 this ≡ (obj, delete_object obj ∷ []) ∷ []
      table = rw ((w.rest this ne).0, unlisted) adopted-table

  -- For a module without a slot for DELETE, and an object that can be deleted and that is not tied to
  -- the module: if the module adopts the object and the object is then deleted, both calls return,
  -- but the DELETE signal of the module, with which its own destructor begins, deletes the freed
  -- object again.
  pub adopt_then_delete :
      (k : ℕ)
      → Returns
          (and_then (adopt_object this obj h) (λ _. destroy env (suc fuel) obj))
          (λ _ h2. emit env (suc k) this delete_signal h2 ≡ fault)
  adopt_then_delete k = rw adopt_object_lem (
      Returns-mono (destroy env (suc fuel) obj adopted) (λ _ h2. Swept adopted obj h2)
        (λ _ h2. emit env (suc k) this delete_signal h2 ≡ fault)
        (destroy-leaf env fuel obj adopted o adopted-Deletable) λ _ h2 w. left_over k h2 w)
