-- ===== src/Object/Linked/Tree/Later.antt =====
-- A tree of objects in a later store, and stores in which one set of objects after another is gone.
use module_flow.Prelude.{
  ◌≡◌, refl, sym, subst, ◌∙◌, Bool, true, false, Option, some, ◌==◌, nat_eq, ◌||◌, arith,
  Bool-cases, inl, inr, nat_beq_iff, String, string_eq, ◌≢◌, beq_self,
}
use module_flow.Container.HashMap.{HashMap}
use module_flow.Object.Heap.{Addr, Object, Heap, Derived}
use module_flow.Object.Linked.Defs.{Linked}
use module_flow.Object.Linked.Child.{SameClass, Gone}
use module_flow.Object.Linked.Children.{
  SameClass-refl, SameClass-trans, SameClass-some, SameClass-none,
}
use module_flow.Object.Linked.Tree.Defs.{
  Tree, Forest, node, bare, child, root, owned, holds_tree, holds_forest, Shows, IsTree, IsForest,
  Cleared,
}

-- An object stays, and keeps its class.
abbrev pub Keeps : Option Object → Option Object → Type 0
Keeps p q = (o : Object) → p ≡ some o → (o' : Object) × (q ≡ some o') × (o'.derived ≡ o.derived)

pub SameClass-Keeps : (p q : Option Object) → SameClass p q → Keeps p q
SameClass-Keeps p q c o e = let (o', e', d, n) = SameClass-some p q o c e in (o', e', d)

module _ (h h' : Heap) where
  mutual
    unfolding IsTree IsForest holds_tree holds_forest

    pub IsTree-later :
        (t : Tree)
        → ((b : Addr) → holds_tree t b ≡ true → Keeps (h.cell b) (h'.cell b))
        → IsTree h t
        → IsTree h' t
    IsTree-later (node a fs) k ((q, e, s), n, w) =
        let (q', e', d) = k a (rw (beq_self a)) q e in
        (
          (q', e', subst (λ (x : Derived). Shows x fs) (sym d) s),
          n,
          IsForest-later fs (owned fs) (λ b y. k b (ground arith)) w,
        )

    pub IsForest-later :
        (fs : Forest) (all : HashMap String Addr)
        → ((b : Addr) → holds_forest fs b ≡ true → Keeps (h.cell b) (h'.cell b))
        → IsForest h all fs
        → IsForest h' all fs
    IsForest-later bare all k w = tt
    IsForest-later (child key t fs) all k (i, x, v, w) = (
      i,
      x,
      IsTree-later t (λ b y. k b (ground arith)) v,
      IsForest-later fs all (λ b y. k b (ground arith)) w,
    )

module _ (h : Heap) where
  mutual
    unfolding IsTree IsForest holds_tree holds_forest

    pub IsTree-live :
        (t : Tree) (b : Addr)
        → IsTree h t
        → holds_tree t b ≡ true
        → (o : Object) × (h.cell b ≡ some o)
    IsTree-live (node a fs) b ((q, e, s), n, w) y = elim (Bool-cases (a == b)) [
      | inl z ↦ (q, rw (← (nat_beq_iff a b).0 z) e)
      | inr z ↦ IsForest-live fs (owned fs) b w (ground arith)
    ]

    pub IsForest-live :
        (fs : Forest) (all : HashMap String Addr) (b : Addr)
        → IsForest h all fs
        → holds_forest fs b ≡ true
        → (o : Object) × (h.cell b ≡ some o)
    IsForest-live bare all b w y = cc
    IsForest-live (child key t fs) all b (i, x, v, w) y = elim (Bool-cases (holds_tree t b)) [
      | inl z ↦ IsTree-live t b v z
      | inr z ↦ IsForest-live fs all b w (ground arith)
    ]

pub holds_tree-root : (t : Tree) → holds_tree t (root t) ≡ true
unfolding holds_tree
holds_tree-root (node a fs) = rw (beq_self a)

-- Nothing is gone yet.
pub Cleared-none :
    (h : Heap) (S : Addr → Bool) → Linked h.cell → ((a : Addr) → S a ≡ false) → Cleared h S h
Cleared-none h S l e = record {
  gone = λ a y. cc (e a);
  others = λ a n. SameClass-refl (h.cell a);
  kept = λ a o s n m. refl;
  linked = l;
  quiet = refl;
}

pub Gone-Cleared : (h : Heap) (x : Addr) (h' : Heap) → Gone h x h' → Cleared h (λ b. x == b) h'
Gone-Cleared h x h' g = record {
  gone = λ a y. rw (← (nat_beq_iff x a).0 y) g.gone;
  others = λ a n. g.others a (differs a n);
  kept = λ a o s n m. g.kept a o s (differs a n) (differs o m);
  linked = g.linked;
  quiet = g.quiet;
}
  where
    differs : (a : Addr) → (x == a) ≡ false → a ≢ x
    differs a n e = ground (arith, nat_beq_iff x a)

-- One set after another.
pub Cleared-both :
    (h h1 h2 : Heap) (S T : Addr → Bool)
    → Cleared h S h1
    → Cleared h1 T h2
    → Cleared h (λ b. S b || T b) h2
Cleared-both h h1 h2 S T c d = record {
  gone = λ a y. elim (Bool-cases (T a)) [
    | inl z ↦ d.gone a z
    | inr z ↦ SameClass-none (h1.cell a) (h2.cell a) (d.others a z) (c.gone a (ground arith))
  ];
  others = λ a n.
      SameClass-trans (h.cell a) (h1.cell a) (h2.cell a) (c.others a (ground arith))
        (d.others a (ground arith));
  kept = λ a o s n m.
      d.kept a o s (ground arith) (ground arith) ∙ c.kept a o s (ground arith) (ground arith);
  linked = d.linked;
  quiet = d.quiet ∙ c.quiet;
}

pub Cleared-set :
    (h h' : Heap) (S T : Addr → Bool) → ((a : Addr) → T a ≡ S a) → Cleared h S h' → Cleared h T h'
Cleared-set h h' S T e c = record {
  gone = λ a y. c.gone a (sym (e a) ∙ y);
  others = λ a n. c.others a (sym (e a) ∙ n);
  kept = λ a o s n m. c.kept a o s (sym (e a) ∙ n) (sym (e o) ∙ m);
  linked = c.linked;
  quiet = c.quiet;
}
