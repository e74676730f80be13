-- ===== src/Object/Linked/Owner.antt =====
-- The end of a manager and of the objects that it owns, among linked objects.
use module_flow.Prelude.{
  suc, ◌≡◌, refl, ap, ◌∙◌, true, false, Option, none, some, [], ◌∷◌, arith, ◌==◌, nat_eq, ℕ, String,
  string_eq, ◌≢◌, ◌⊎◌, beq-false, Bool-cases, inl, inr, nat_beq_iff,
}
use module_flow.Container.HashMap.{HashMap, find, valueref}
use module_flow.Object.Connections.{slots, observers}
use module_flow.Object.Heap.{Addr, null, Object, Heap, Environment, manager}
use module_flow.Object.Returns.{Returns, Returns-and_then, Returns-mono, load_lem}
use module_flow.Object.Signals.{delete_signal}
use module_flow.Object.Destroy.{
  delete_children, destroy, destroy_with, destroy_base, destroy_derived,
}
use module_flow.Object.Linked.Defs.{links, is_live, slots_at, Linked}
use module_flow.Object.Linked.Leaf.{destroy_base-Swept}
use module_flow.Object.Linked.Leaving.{Swept}
use module_flow.Object.Linked.Delete.{Linked-Leaving, swept_Linked, swept_kept}
use module_flow.Object.Linked.Child.{SameClass}
use module_flow.Object.Linked.Children.{holds, Owned, Emptied, SameClass-some, delete_children_lem}

-- The store after the end of a manager at `x` with the entries `m`.
pub record Dissolved (h : Heap) (x : Addr) (m : HashMap String Addr) (h' : Heap) : Type 0 where
  pub gone : (a : Addr) → (a ≡ x) ⊎ (holds m a ≡ true) → h'.cell a ≡ none
  -- No object has a slot for the manager or for an object that it owned.
  pub forgotten :
      (a o : Addr) (s : ℕ) → (o ≡ x) ⊎ (holds m o ≡ true) → slots_at h'.cell a s o ≡ none
  -- The slots between the others are as before, and they live on.
  pub kept :
      (a o : Addr) (s : ℕ)
      → (a ≢ x) × (holds m a ≡ false)
      → (o ≢ x) × (holds m o ≡ false)
      → slots_at h'.cell a s o ≡ slots_at h.cell a s o
  pub others : (a : Addr) → (a ≢ x) × (holds m a ≡ false) → is_live (h'.cell a) ≡ is_live (h.cell a)
  pub linked : Linked h'.cell
  pub quiet : h'.calls ≡ h.calls

pub none_of_dead : (p : Option Object) → is_live p ≡ false → p ≡ none
none_of_dead none e = refl
none_of_dead (some o) e = cc

slots-none : (p : Option Object) (s : ℕ) (o : Addr) → p ≡ none → slots (links p) s o ≡ none
slots-none p s o e = rw e (unfold slots observers valueref find in refl)

-- Among linked objects nobody has a slot for an address that is free.
pub Linked-forgotten :
    (c : Addr → Option Object)
    → Linked c
    → (a x : Addr) (s : ℕ) → c x ≡ none
    → x ≢ null
    → slots_at c a s x ≡ none
Linked-forgotten c l a x s e n =
    ground
      (arith, l.hooked a x s, l.back a x, slots-none (c x) delete_signal a e, slots-none (c a) s x)

pub SameClass-live : (p q : Option Object) → SameClass p q → is_live q ≡ is_live p
SameClass-live none q c = rw c
SameClass-live (some o) q (o', e, d, n) = rw e

-- What is owned lives, and is not the manager.
Owned-live :
    (h : Heap) (this : Addr) (all m : HashMap String Addr) (a : Addr)
    → Owned h this all m
    → holds m a ≡ true
    → (is_live (h.cell a) ≡ true) × (a ≢ this)
Owned-live h this all [] a w y = cc
Owned-live h this all ((k, b) ∷ m) a (i, ne, out, (o, e, leaf), w) y = elim (Bool-cases (b == a)) [
  | inl s ↦ rw (← (nat_beq_iff b a).0 s) (rw e, ne)
  | inr n ↦ Owned-live h this all m a w (ground arith)
]

module _ (h : Heap) (x : Addr) (m : HashMap String Addr) (l : Linked h.cell)
    (live : is_live (h.cell x) ≡ true) (w : Owned h x m m) where
  -- The two parts of the destructor.
  Dissolved-parts :
      (h1 h2 : Heap)
      → Emptied h m h1
      → is_live (h1.cell x) ≡ true
      → Swept h1 x h2
      → Dissolved h x m h2
  Dissolved-parts h1 h2 z l1 s = record {
    gone = gone;
    forgotten = λ a o t p. Linked-forgotten h2.cell l2 a o t (gone o p) (λ e. not_null o p e);
    kept = λ a o t n k. swept_kept h1 x h2 z.linked s a o t n.0 k.0 ∙ z.kept a o t n.1 k.1;
    others = λ a n. (s.rest a n.0).1 ∙ SameClass-live (h.cell a) (h1.cell a) (z.others a n.1);
    linked = l2;
    quiet = s.quiet ∙ z.quiet;
  }
    where
      l2 : Linked h2.cell
      l2 = swept_Linked h1 x h2 z.linked s l1

      gone : (a : Addr) → (a ≡ x) ⊎ (holds m a ≡ true) → h2.cell a ≡ none
      gone a (inl e) = rw e s.gone
      gone a (inr y) =
          none_of_dead (h2.cell a)
            ((s.rest a (Owned-live h x m m a w y).1).1 ∙ ap is_live (z.gone a y))

      not_null : (a : Addr) → (a ≡ x) ⊎ (holds m a ≡ true) → a ≢ null
      not_null a (inl e) n = ground (arith, l.no_null)
      not_null a (inr y) n = ground (arith, l.no_null, Owned-live h x m m a w y)

  -- In a heap of linked objects, `delete x` returns for a manager whose entries stand each under its
  -- own key, and show different live objects other than the manager that own no objects themselves,
  -- and whose parent, if it has one, is alive and not among them: no task reads through a dangling
  -- pointer. Afterwards the manager and all that it owned are free, no object lists one of them as an
  -- observer, all slots between other objects are as before, the other objects live on, no slot of a
  -- client was called, and the heap is linked again.
  pub destroy-Dissolved :
      (env : Environment) (f : ℕ) (q : Object)
      → h.cell x ≡ some q
      → q.derived ≡ manager m
      → (q.parent_ ≡ null) ⊎ ((is_live (h.cell q.parent_) ≡ true) × (holds m q.parent_ ≡ false))
      → Returns (destroy env (suc (suc f)) x h) (λ _ h'. Dissolved h x m h')
  unfolding destroy destroy_with destroy_derived
  destroy-Dissolved env f q e d p =
      rw (beq-false x null (λ n. ground (arith, l.no_null)), load_lem x h q e, d)
        (Returns-and_then (delete_children env (destroy env (suc f)) x m h) _
          (λ _ h1. Emptied h m h1) _ (delete_children_lem env f x m m h q l e d w)
          λ _ h1 z. rest h1 z)
    where
      apart : holds m x ≡ false
      apart = elim (Bool-cases (holds m x)) [
        | inl y ↦ absurd ((Owned-live h x m m x w y).1 refl)
        | inr n ↦ n
      ]

      rest :
          (h1 : Heap)
          → Emptied h m h1
          → Returns (destroy_base env (destroy env (suc f)) x h1) (λ _ h2. Dissolved h x m h2)
      rest h1 z =
          let (q1, e1, d1, p1) = SameClass-some (h.cell x) (h1.cell x) q (z.others x apart) e in
          let parent : (q1.parent_ ≡ null) ⊎ (is_live (h1.cell q1.parent_) ≡ true) = elim p [
            | inl n ↦ inl (p1 ∙ n)
            | inr k ↦ inr (
                rw p1 (
                  SameClass-live (h.cell q.parent_) (h1.cell q.parent_) (z.others q.parent_ k.1)
                  ∙ k.0))
          ] in
          Returns-mono (destroy_base env (destroy env (suc f)) x h1) (λ _ h2. Swept h1 x h2) _
            (destroy_base-Swept env (destroy env (suc f)) x h1 q1
              (Linked-Leaving h1 x q1 z.linked e1 parent))
            λ _ h2 s. Dissolved-parts h1 h2 z (rw e1) s
