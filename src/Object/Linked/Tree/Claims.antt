-- ===== src/Object/Linked/Tree/Claims.antt =====
-- The end of an object and of all that it owns, at any depth.
use module_flow.Prelude.{
  ℕ, zero, suc, ◌≡◌, refl, ap, subst, ◌∙◌, ◌≤◌, true, false, some, none, ◌==◌, nat_eq, arith, inl,
  inr, ◌≢◌, ◌⊎◌, beq-false, nat_beq_iff, Bool-cases,
}
use module_flow.Object.Heap.{Addr, null, Object, Heap, Environment}
use module_flow.Object.Returns.{Returns, Returns-and_then, Returns-mono, load_lem}
use module_flow.Object.Destroy.{destroy, destroy_with, destroy_base, destroy_derived}
use module_flow.Object.Linked.Defs.{is_live, slots_at, Linked}
use module_flow.Object.Linked.Leaving.{Swept}
use module_flow.Object.Linked.Leaf.{destroy_base-Swept}
use module_flow.Object.Linked.Delete.{Linked-Leaving, swept_Linked, swept_kept}
use module_flow.Object.Linked.Children.{SameClass-some}
use module_flow.Object.Linked.Owner.{none_of_dead, Linked-forgotten, SameClass-live}
use module_flow.Object.Linked.Tree.Defs.{
  Tree, Forest, node, root, holds_tree, holds_forest, height, IsTree, Shows, Cleared,
}
use module_flow.Object.Linked.Tree.Later.{IsTree-live}
use module_flow.Object.Linked.Tree.Round.{derived_round, clears}

-- The store after the end of a tree of objects.
pub record Felled (h : Heap) (t : Tree) (h' : Heap) : Type 0 where
  pub gone : (a : Addr) → holds_tree t a ≡ true → h'.cell a ≡ none
  -- No object has a slot for one of them.
  pub forgotten : (a o : Addr) (s : ℕ) → holds_tree t o ≡ true → slots_at h'.cell a s o ≡ none
  -- The slots between the others are as before, and they live on.
  pub kept :
      (a o : Addr) (s : ℕ)
      → holds_tree t a ≡ false
      → holds_tree t o ≡ false
      → slots_at h'.cell a s o ≡ slots_at h.cell a s o
  pub others : (a : Addr) → holds_tree t a ≡ false → is_live (h'.cell a) ≡ is_live (h.cell a)
  pub linked : Linked h'.cell
  pub quiet : h'.calls ≡ h.calls

-- The two parts of the destructor of the root.
Felled-parts :
    (h h1 h2 : Heap) (x : Addr) (fs : Forest)
    → Linked h.cell
    → IsTree h (node x fs)
    → holds_forest fs x ≡ false
    → Cleared h (holds_forest fs) h1
    → is_live (h1.cell x) ≡ true
    → Swept h1 x h2
    → Felled h (node x fs) h2
unfolding holds_tree
Felled-parts h h1 h2 x fs l w n z l1 s = record {
  gone = gone;
  forgotten = λ a o t p. Linked-forgotten h2.cell l2 a o t (gone o p) (not_null o p);
  kept = λ a o t p r.
      swept_kept h1 x h2 z.linked s a o t (differs a p) (differs o r)
      ∙ z.kept a o t (ground arith) (ground arith);
  others = λ a p.
      (s.rest a (differs a p)).1
      ∙ SameClass-live (h.cell a) (h1.cell a) (z.others a (ground arith));
  linked = l2;
  quiet = s.quiet ∙ z.quiet;
}
  where
    l2 : Linked h2.cell
    l2 = swept_Linked h1 x h2 z.linked s l1

    differs : (a : Addr) → holds_tree (node x fs) a ≡ false → a ≢ x
    differs a p e = ground (arith, nat_beq_iff x a)

    gone : (a : Addr) → holds_tree (node x fs) a ≡ true → h2.cell a ≡ none
    gone a y = elim (Bool-cases (x == a)) [
      | inl e ↦ rw (← (nat_beq_iff x a).0 e) s.gone
      | inr e ↦ none_of_dead (h2.cell a) (
          (s.rest a (λ q. ground (arith, nat_beq_iff x a))).1
          ∙ ap is_live (z.gone a (ground arith)))
    ]

    not_null : (a : Addr) → holds_tree (node x fs) a ≡ true → a ≢ null
    not_null a y e = ground (arith, l.no_null, (IsTree-live h (node x fs) a w y).1)

-- In a heap of linked objects, let an object be the root of a tree: managers with, each under its own
-- key, what they own, and objects that are no managers, all alive and none of them twice; and let its
-- parent, if it has one, be alive and not in the tree. Then deleting the object returns with as many
-- levels of fuel as the tree has: no task reads through a dangling pointer. Afterwards the whole tree
-- is free, no object lists one of it as an observer, all slots between other objects are as before,
-- the other objects live on, no slot of a client was called, and the heap is linked again.
pub destroy-Felled :
    (env : Environment) (f : ℕ) (h : Heap) (t : Tree) (q : Object)
    → Linked h.cell
    → IsTree h t
    → height t ≤ f
    → h.cell (root t) ≡ some q
    → (q.parent_ ≡ null) ⊎ ((is_live (h.cell q.parent_) ≡ true) × (holds_tree t q.parent_ ≡ false))
    → Returns (destroy env f (root t) h) (λ _ h'. Felled h t h')
unfolding destroy destroy_with height IsTree holds_tree
destroy-Felled env zero h (node x fs) q l w k e p = absurd (omega arith)
destroy-Felled env (suc f) h (node x fs) q l w k e p =
    rw (beq-false x null (λ n. ground (arith, l.no_null)), load_lem x h q e)
      (Returns-and_then (destroy_derived env (destroy env f) x q.derived h) _
        (λ _ h1. Cleared h (holds_forest fs) h1) _
        (derived_round env f fs (clears env f fs (omega arith)) q.derived x h q l e refl shows w.1
          w.2)
        λ _ h1 z. rest h1 z)
  where
    shows : Shows q.derived fs
    shows =
        let (o, e', s) = w.0 in
        let same : o ≡ q = cc in subst (λ (x : Object). Shows x.derived fs) same s

    rest :
        (h1 : Heap)
        → Cleared h (holds_forest fs) h1
        → Returns (destroy_base env (destroy env f) x h1) (λ _ h2. Felled h (node x fs) h2)
    rest h1 z =
        let (q1, e1, d1, p1) = SameClass-some (h.cell x) (h1.cell x) q (z.others x w.1) e in
        let parent : (q1.parent_ ≡ null) ⊎ (is_live (h1.cell q1.parent_) ≡ true) = elim p [
          | inl n ↦ inl (p1 ∙ n)
          | inr k ↦ inr (
              rw p1 (
                SameClass-live (h.cell q.parent_) (h1.cell q.parent_)
                  (z.others q.parent_ (ground (arith, k.1)))
                ∙ k.0))
        ] in
        Returns-mono (destroy_base env (destroy env f) x h1) (λ _ h2. Swept h1 x h2) _
          (destroy_base-Swept env (destroy env f) x h1 q1
            (Linked-Leaving h1 x q1 z.linked e1 parent))
          λ _ h2 s. Felled-parts h h1 h2 x fs l w w.1 z (rw e1) s
