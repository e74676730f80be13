-- ===== src/Object/Linked/Tree/Round.antt =====
-- The destructors of a tree of objects, from the leaves on.
use module_flow.Prelude.{
  ℕ, zero, suc, ◌≡◌, refl, sym, ap, subst, ◌∙◌, ◌≤◌, Bool, true, false, Option, some, ◌∷◌, ◌==◌,
  nat_eq, ◌||◌, arith, inl, inr, String, string_eq, ◌≢◌, beq-false, nat_beq_iff, Bool-cases,
}
use module_flow.Container.HashMap.{HashMap, find, has}
use module_flow.Object.Connections.{Connections, slots}
use module_flow.Object.Heap.{
  Addr, null, Object, Heap, Cmd, Run, Task, and_then, write, Environment, Derived, plain, manager,
  module_object,
}
use module_flow.Object.Returns.{
  Returns, Returns-and_then, Returns-mono, modify_lem, load_lem, and_then_assoc, write_self,
  write-other,
}
use module_flow.Object.Signals.{set_parent}
use module_flow.Object.Manager.Laws.{entries_lem}
use module_flow.Object.Destroy.{
  delete_children, destroy, destroy_with, destroy_base, destroy_derived,
}
use module_flow.Object.Linked.Defs.{links, is_live, Linked}
use module_flow.Object.Linked.Create.{Linked-same}
use module_flow.Object.Linked.Leaving.{delete_table, Swept, Leaving}
use module_flow.Object.Linked.Leaf.{
  orphaned, orphaned-cell, destroy_base-orphan, destroy_base-Swept,
}
use module_flow.Object.Linked.Delete.{Linked-Leaving, swept_Linked, swept_kept}
use module_flow.Object.Linked.Child.{SameClass, SameClass-strip, Gone}
use module_flow.Object.Linked.Children.{SameClass-some, still_there_lem}
use module_flow.Object.Linked.Tree.Defs.{
  Tree, Forest, node, bare, child, root, owned, holds_tree, holds_forest, height, forest_height,
  Shows, IsTree, IsForest, Cleared,
}
use module_flow.Object.Linked.Tree.Later.{
  Keeps, SameClass-Keeps, IsForest-later, holds_tree-root, Cleared-none, Gone-Cleared, Cleared-both,
  Cleared-set,
}

-- ~Object, of an object without a parent.
base_round :
    (env : Environment) (del : Addr → Cmd (Unit {0})) (h : Heap) (x : Addr) (o : Object)
    → Linked h.cell
    → h.cell x ≡ some o
    → o.parent_ ≡ null
    → Returns (destroy_base env del x h) (λ _ h'. Gone h x h')
base_round env del h x o l e p = rw (destroy_base-orphan env del x h o d p) (record {
  gone = swept.gone;
  others = λ a n.
      rw (orphaned-cell env del x h o d a n)
        (SameClass-strip x (has (delete_table h x) a) (h.cell a));
  kept = λ a b s na nb. swept_kept h x after l swept a b s na nb;
  linked = swept_Linked h x after l swept (rw e);
  quiet = swept.quiet;
})
  where
    d : Leaving h x o
    d = Linked-Leaving h x o l e (inl p)

    after : Heap
    after = orphaned env del x h o d

    swept : Swept h x after
    swept =
        subst (λ (r : Run (Unit {0})). Returns r (λ _ h'. Swept h x h'))
          (destroy_base-orphan env del x h o d p) (destroy_base-Swept env del x h o d)

-- An object without its parent.
abbrev orphan : Object → Object
orphan o = record o { parent_ = null }

abbrev apart : Heap → Addr → Object → Heap
apart h x o = record h { cell = write h.cell x (some (orphan o)) }

apart-links :
    (h : Heap) (x : Addr) (o : Object)
    → h.cell x ≡ some o
    → (a : Addr) → links ((apart h x o).cell a) ≡ links (h.cell a)
unfolding write
apart-links h x o e a = ground (arith, nat_beq_iff x a)

apart-Linked :
    (h : Heap) (x : Addr) (o : Object)
    → Linked h.cell
    → h.cell x ≡ some o
    → Linked (apart h x o).cell
apart-Linked h x o l e =
    Linked-same h.cell (apart h x o).cell (apart-links h x o e)
      (ap is_live (write-other h.cell x null (some (orphan o)) (λ q. ground (arith, l.no_null)))
        ∙ l.no_null)
      l

apart-Keeps :
    (h : Heap) (x : Addr) (o : Object)
    → h.cell x ≡ some o
    → (b : Addr) → Keeps (h.cell b) ((apart h x o).cell b)
unfolding write
apart-Keeps h x o e b p i = elim (Bool-cases (x == b)) [
  | inl y ↦ (orphan o, rw y refl, ground (arith, nat_beq_iff x b))
  | inr n ↦ (p, rw n i, refl)
]

-- What is cleared after an object of it lost its parent.
apart-Cleared :
    (h : Heap) (x : Addr) (o : Object) (S : Addr → Bool) (h' : Heap)
    → h.cell x ≡ some o
    → S x ≡ true
    → Cleared (apart h x o) S h'
    → Cleared h S h'
apart-Cleared h x o S h' e y c = record {
  gone = c.gone;
  others = λ a n.
      subst (λ (p : Option Object). SameClass p (h'.cell a))
        (write-other h.cell x a (some (orphan o)) (λ q. differs a n q)) (c.others a n);
  kept = λ a b s n m.
      c.kept a b s n m ∙ ap (λ (p : Connections Task). slots p s b) (apart-links h x o e a);
  linked = c.linked;
  quiet = c.quiet;
}
  where
    differs : (a : Addr) → S a ≡ false → x ≢ a
    differs a n q = cc (sym y ∙ (ap S q ∙ n))

module _ (env : Environment) where
  -- The round of a tree in the loop of the manager that owns it, and the loop over some trees.
  abbrev pub Rounds : ℕ → Tree → Type 0
  Rounds f t =
      (h : Heap)
      → Linked h.cell
      → IsTree h t
      → Returns (and_then (set_parent (root t) null h) (λ _. destroy env f (root t)))
          (λ _ h'. Cleared h (holds_tree t) h')

  abbrev pub Clears : ℕ → Forest → Type 0
  Clears f fs =
      (this : Addr) (h : Heap) (q : Object) (all : HashMap String Addr)
      → Linked h.cell
      → h.cell this ≡ some q
      → q.derived ≡ manager all
      → holds_forest fs this ≡ false
      → IsForest h all fs
      → Returns (delete_children env (destroy env f) this (owned fs) h)
          (λ _ h'. Cleared h (holds_forest fs) h')

  Clears-bare : (f : ℕ) → Clears f bare
  unfolding delete_children holds_forest
  Clears-bare f this h q all l e d n w = Cleared-none h (holds_forest bare) l (λ a. refl)

  child_lem :
      (del : Addr → Cmd (Unit {0})) (this : Addr) (all : HashMap String Addr) (k : String)
      (a : Addr) (m : HashMap String Addr) (h : Heap) (q : Object)
      → h.cell this ≡ some q
      → q.derived ≡ manager all
      → find k all ≡ some a
      → delete_children env del this ((k, a) ∷ m) h
        ≡ and_then
            (and_then (set_parent a null h) (λ _. del a))
            (λ _. delete_children env del this m)
  unfolding delete_children
  child_lem del this all k a m h q e d i =
      rw (entries_lem h this q all (record { stands = e; kind = d }), still_there_lem k a all i)
        (sym
          (and_then_assoc (set_parent a null h) (λ _. del a) (λ _. delete_children env del this m)))

  Clears-child :
      (f : ℕ) (k : String) (t : Tree) (fs : Forest)
      → Rounds f t
      → Clears f fs
      → Clears f (child k t fs)
  unfolding holds_forest IsForest
  Clears-child f k t fs round clears this h q all l e d n (i, x, v, w) =
      rw (child_lem (destroy env f) this all k (root t) (owned fs) h q e d i) (
        Returns-and_then (and_then (set_parent (root t) null h) (λ _. destroy env f (root t))) _
          (λ _ h1. Cleared h (holds_tree t) h1) _ (round h l v)
          λ _ h1 c.
            let (q1, e1, d1, p1) =
              SameClass-some (h.cell this) (h1.cell this) q (c.others this (ground arith)) e in
            Returns-mono (delete_children env (destroy env f) this (owned fs) h1)
              (λ _ h2. Cleared h1 (holds_forest fs) h2) _
              (clears this h1 q1 all c.linked e1 (d1 ∙ d) (ground arith) (
                IsForest-later h h1 fs all
                  (λ b y. SameClass-Keeps (h.cell b) (h1.cell b) (c.others b (outside b y))) w))
              λ _ h2 c'. Cleared-both h h1 h2 (holds_tree t) (holds_forest fs) c c')
    where
      outside : (b : Addr) → holds_forest fs b ≡ true → holds_tree t b ≡ false
      outside b y = elim (Bool-cases (holds_tree t b)) [ inl z ↦ cc (x b z) | inr z ↦ z ]

  -- The body of the destructor of the root.
  pub derived_round :
      (f : ℕ) (fs : Forest)
      → Clears f fs
      → (d : Derived) (a : Addr) (h : Heap) (o : Object) → Linked h.cell
      → h.cell a ≡ some o
      → o.derived ≡ d
      → Shows d fs
      → holds_forest fs a ≡ false
      → IsForest h (owned fs) fs
      → Returns (destroy_derived env (destroy env f) a d h) (λ _ h'. Cleared h (holds_forest fs) h')
  unfolding destroy_derived holds_forest
  derived_round f fs clears (manager m) a h o l e d s n w =
      rw s (clears a h o (owned fs) l e (d ∙ ap manager s) n w)
  derived_round f bare clears plain a h o l e d s n w =
      Cleared-none h (holds_forest bare) l (λ b. refl)
  derived_round f (child k t fs) clears plain a h o l e d s n w = absurd s
  derived_round f bare clears (module_object c) a h o l e d s n w =
      Cleared-none h (holds_forest bare) l (λ b. refl)
  derived_round f (child k t fs) clears (module_object c) a h o l e d s n w = absurd s

  -- What follows it, and both together.
  pub base_after :
      (del : Addr → Cmd (Unit {0})) (a : Addr) (fs : Forest) (h h1 : Heap) (o : Object)
      → h.cell a ≡ some o
      → o.parent_ ≡ null
      → holds_forest fs a ≡ false
      → Cleared h (holds_forest fs) h1
      → Returns (destroy_base env del a h1) (λ _ h2. Cleared h (holds_tree (node a fs)) h2)
  unfolding holds_tree
  base_after del a fs h h1 o e p n c =
      let (o1, e1, d1, p1) = SameClass-some (h.cell a) (h1.cell a) o (c.others a n) e in
      Returns-mono (destroy_base env del a h1) (λ _ h2. Gone h1 a h2) _
        (base_round env del h1 a o1 c.linked e1 (p1 ∙ p))
        λ _ h2 g.
          Cleared-set h h2 (λ b. holds_forest fs b || a == b) (holds_tree (node a fs))
            (λ b. ground arith)
            (Cleared-both h h1 h2 (holds_forest fs) (λ b. a == b) c (Gone-Cleared h1 a h2 g))

  Rounds-node : (f : ℕ) (a : Addr) (fs : Forest) → Clears f fs → Rounds (suc f) (node a fs)
  unfolding set_parent destroy destroy_with IsTree
  Rounds-node f a fs clears h l ((q, e, s), n, w) =
      let h0 = apart h a q in
      let e0 : h0.cell a ≡ some (orphan q) = write_self h.cell a (some (orphan q)) in
      rw
        (
          modify_lem a orphan h q e,
          beq-false a null (λ z. ground (arith, l.no_null)),
          load_lem a h0 (orphan q) e0,
        )
        (Returns-and_then (destroy_derived env (destroy env f) a q.derived h0) _
          (λ _ h1. Cleared h0 (holds_forest fs) h1) _
          (derived_round f fs clears q.derived a h0 (orphan q) (apart-Linked h a q l e) e0 refl s n
            (IsForest-later h h0 fs (owned fs) (λ b y. apart-Keeps h a q e b) w))
          λ _ h1 c.
            Returns-mono (destroy_base env (destroy env f) a h1)
              (λ _ h2. Cleared h0 (holds_tree (node a fs)) h2) _
              (base_after (destroy env f) a fs h0 h1 (orphan q) e0 refl n c)
              λ _ h2 c'.
                apart-Cleared h a q (holds_tree (node a fs)) h2 e (holds_tree-root (node a fs)) c')

  -- As many levels of fuel as the tree has are enough.
  mutual
    unfolding height forest_height

    pub rounds : (f : ℕ) (t : Tree) → height t ≤ f → Rounds f t
    rounds zero (node a fs) k = absurd (omega arith)
    rounds (suc f) (node a fs) k = Rounds-node f a fs (clears f fs (omega arith))

    pub clears : (f : ℕ) (fs : Forest) → forest_height fs ≤ f → Clears f fs
    clears f bare k = Clears-bare f
    clears f (child key t fs) k =
        Clears-child f key t fs (rounds f t (ground arith)) (clears f fs (ground arith))
