-- ===== src/Object/Linked/Same.antt =====
-- Steps that leave every connection as it is, and the end of ~Object among them.
use module_flow.Prelude.{
  ◌≡◌, refl, ◌∙◌, true, false, some, arith, ◌==◌, nat_eq, ◌≢◌, ◌⊎◌, beq-false, Bool-cases, inl, inr,
  nat_beq_iff, String, string_eq, Option-cases,
}
use module_flow.Container.HashMap.{HashMap, has, erase}
use module_flow.Object.Heap.{
  Addr, null, Object, Heap, done, and_then, Cmd, modify, write, Environment, load, plain, manager,
  module_object, Derived,
}
use module_flow.Object.Returns.{Returns, Returns-and_then, Returns-mono, load_lem}
use module_flow.Object.Signals.{set_parent}
use module_flow.Object.Manager.{
  remove, entries, set_entries, detach, key_of, remove_by_pointer, name,
}
use module_flow.Object.Destroy.{leave_parent}
use module_flow.Object.Linked.Defs.{links, is_live}

-- The same objects with the same connections, and no slot called in between.
abbrev pub Same : Heap → Heap → Type 0
Same h h' =
    ((a : Addr)
      → (links (h'.cell a) ≡ links (h.cell a)) × (is_live (h'.cell a) ≡ is_live (h.cell a)))
    × (h'.calls ≡ h.calls)

pub Same-refl : (h : Heap) → Same h h
Same-refl h = (λ a. (refl, refl), refl)

pub Same-trans : (h k l : Heap) → Same h k → Same k l → Same h l
Same-trans h k l p q = (λ a. ((q.0 a).0 ∙ (p.0 a).0, (q.0 a).1 ∙ (p.0 a).1), q.1 ∙ p.1)

pub modify-Same :
    (p : Addr) (f : Object → Object) (h : Heap)
    → ((o : Object) → (f o).connections_ ≡ o.connections_)
    → is_live (h.cell p) ≡ true
    → Returns (modify p f h) (λ _ h'. Same h h')
unfolding modify write
modify-Same p f h keep live = elim (Option-cases (h.cell p)) [
  | inl e ↦ absurd (cc)
  | inr (o, e) ↦
      rw (e, modify)
        (λ a. (ground (arith, keep o, nat_beq_iff p a), ground (arith, nat_beq_iff p a)), refl)
]

module _ (env : Environment) (del : Addr → Cmd (Unit {0})) where
  detach-Same :
      (x : Addr) (h : Heap)
      → is_live (h.cell x) ≡ true
      → Returns (detach env del x false h) (λ _ h'. Same h h')
  unfolding detach set_parent
  detach-Same x h live =
      Returns-and_then (set_parent x null h) _ (λ _ h'. Same h h') _
        (modify-Same x (λ o. record o { parent_ = null }) h (λ o. refl) live) (λ _ h' s. s)

  drop_entry-Same :
      (p x : Addr) (m : HashMap String Addr) (h : Heap)
      → is_live (h.cell p) ≡ true
      → is_live (h.cell x) ≡ true
      → Returns (and_then (set_entries p m h) (λ _. detach env del x false)) (λ _ h'. Same h h')
  unfolding set_entries
  drop_entry-Same p x m h lp lx =
      Returns-and_then (set_entries p m h) _ (λ _ h'. Same h h') _
        (modify-Same p (λ o. record o { derived = manager m }) h (λ o. refl) lp)
        (λ _ h' s.
          Returns-mono (detach env del x false h') (λ _ k. Same h' k) _
            (detach-Same x h' ((s.0 x).1 ∙ lx)) (λ _ k s'. Same-trans h h' k s s'))

  remove_by_pointer-Same :
      (p x : Addr) (m : HashMap String Addr) (h : Heap)
      → is_live (h.cell p) ≡ true
      → is_live (h.cell x) ≡ true
      → Returns (remove_by_pointer env del p x false m h) (λ _ h'. Same h h')
  unfolding remove_by_pointer
  remove_by_pointer-Same p x m h lp lx = elim (Option-cases (key_of x m)) [
    | inl e ↦ rw (e, remove_by_pointer) (Same-refl h)
    | inr (k, e) ↦ rw (e, remove_by_pointer) (drop_entry-Same p x (erase k m) h lp lx)
  ]

  name_lem :
      (x : Addr) (h : Heap) (o : Object)
      → h.cell x ≡ some o
      → o.derived ≡ plain
      → name env x h ≡ done o.name_ h
  unfolding name load
  name_lem x h o ex dx = ground arith

  entries_lem :
      (p : Addr) (m : HashMap String Addr) (h : Heap) (q : Object)
      → h.cell p ≡ some q
      → q.derived ≡ manager m
      → entries p h ≡ done m h
  unfolding entries load
  entries_lem p m h q ep dp = ground arith

  remove-Same :
      (p x : Addr) (m : HashMap String Addr) (h : Heap) (o q : Object)
      → h.cell x ≡ some o
      → o.derived ≡ plain
      → h.cell p ≡ some q
      → q.derived ≡ manager m
      → Returns (remove env del p x false h) (λ _ h'. Same h h')
  unfolding remove
  remove-Same p x m h o q ex dx ep dp = elim (Bool-cases (x == null)) [
    | inl e ↦ rw e (Same-refl h)
    | inr e ↦
        rw (e, name_lem x h o ex dx, entries_lem p m h q ep dp)
          (elim (Bool-cases (has m o.name_)) [
            | inl y ↦ rw y (drop_entry-Same p x (erase o.name_ m) h (ground arith) (ground arith))
            | inr n ↦ rw n (remove_by_pointer-Same p x m h (ground arith) (ground arith))
          ])
  ]

  leave-Same :
      (x p : Addr) (h : Heap) (o q : Object)
      → h.cell x ≡ some o
      → o.derived ≡ plain
      → h.cell p ≡ some q
      → p ≢ null
      → (d : Derived) → q.derived ≡ d
      → Returns (leave_parent env del x p h) (λ _ h'. Same h h')
  unfolding leave_parent
  leave-Same x p h o q ex dx ep np (manager m) dp =
      rw (beq-false p null np, load_lem p h q ep, dp)
        (Returns-and_then (remove env del p x false h) _ (λ _ h'. Same h h') _
          (remove-Same p x m h o q ex dx ep dp) (λ _ h' s. s))
  leave-Same x p h o q ex dx ep np plain dp =
      rw (beq-false p null np, load_lem p h q ep, dp) (Same-refl h)
  leave-Same x p h o q ex dx ep np (module_object s) dp =
      rw (beq-false p null np, load_lem p h q ep, dp) (Same-refl h)

  -- An object whose parent, if any, is alive leaves it without a fault.
  pub leave_parent-Same :
      (x p : Addr) (h : Heap) (o : Object)
      → h.cell x ≡ some o
      → o.derived ≡ plain
      → (p ≡ null) ⊎ (is_live (h.cell p) ≡ true)
      → Returns (leave_parent env del x p h) (λ _ h'. Same h h')
  unfolding leave_parent
  leave_parent-Same x p h o ex dx safe = elim (Bool-cases (p == null)) [
    | inl e ↦ rw e (Same-refl h)
    | inr n ↦ elim (Option-cases (h.cell p)) [
      | inl dead ↦ ground (arith, nat_beq_iff p null)
      | inr (q, ep) ↦ leave-Same x p h o q ex dx ep (ground arith) q.derived refl
    ]
  ]
