-- ===== src/Object/Linked/Children.antt =====
-- ~ObjectManager among linked objects.
use module_flow.Prelude.{
  suc, ◌≡◌, refl, sym, subst, ◌∙◌, Bool, true, false, Option, none, some, [], ◌∷◌, arith, ◌==◌,
  nat_eq, ℕ, String, string_eq, ◌≢◌, ◌||◌, beq_self, Bool-cases, inl, inr, nat_beq_iff,
}
use module_flow.Container.HashMap.{HashMap, find}
use module_flow.Object.Heap.{Addr, null, Object, Heap, and_then, Environment, manager}
use module_flow.Object.Returns.{Returns, Returns-and_then, Returns-mono, and_then_assoc}
use module_flow.Object.Signals.{set_parent}
use module_flow.Object.Manager.Laws.{entries_lem}
use module_flow.Object.Destroy.{delete_children, still_there, destroy}
use module_flow.Object.Linked.Defs.{slots_at, Linked}
use module_flow.Object.Linked.Leaving.{IsLeaf}
use module_flow.Object.Linked.Child.{SameClass, Gone, child_round}

-- Whether an address stands in a map.
abbrev pub holds : HashMap String Addr → Addr → Bool
holds [] b = false
holds ((k, a) ∷ m) b = a == b || holds m b

-- The entries of a list: each is the entry of the manager's map for its key, shows a live object that
-- is neither the manager nor another entry, and that owns no objects itself.
abbrev pub Owned : Heap → Addr → HashMap String Addr → HashMap String Addr → Type 0
Owned h this all [] = Unit
Owned h this all ((k, a) ∷ m) =
    (find k all ≡ some a)
    × (a ≢ this)
    × (holds m a ≡ false)
    × ((o : Object) × (h.cell a ≡ some o) × IsLeaf o.derived)
    × Owned h this all m

-- The store after the loop over some entries.
pub record Emptied (h : Heap) (m : HashMap String Addr) (h' : Heap) : Type 0 where
  pub gone : (a : Addr) → holds m a ≡ true → h'.cell a ≡ none
  pub others : (a : Addr) → holds m a ≡ false → SameClass (h.cell a) (h'.cell a)
  pub kept :
      (a o : Addr) (s : ℕ)
      → holds m a ≡ false
      → holds m o ≡ false
      → slots_at h'.cell a s o ≡ slots_at h.cell a s o
  pub linked : Linked h'.cell
  pub quiet : h'.calls ≡ h.calls

pub SameClass-refl : (p : Option Object) → SameClass p p
SameClass-refl none = refl
SameClass-refl (some o) = (o, refl, refl, refl)

pub SameClass-trans : (p q r : Option Object) → SameClass p q → SameClass q r → SameClass p r
SameClass-trans none q r e f = subst (λ (x : Option Object). SameClass x r) e f
SameClass-trans (some o) q r (o', e, d, n) f =
    let (p', e', d', n') = subst (λ (x : Option Object). SameClass x r) e f in
    (p', e', d' ∙ d, n' ∙ n)

pub SameClass-some :
    (p q : Option Object) (o : Object)
    → SameClass p q
    → p ≡ some o
    → (o' : Object) × (q ≡ some o') × (o'.derived ≡ o.derived) × (o'.parent_ ≡ o.parent_)
SameClass-some p q o c e = subst (λ (x : Option Object). SameClass x q) e c

pub SameClass-none : (p q : Option Object) → SameClass p q → p ≡ none → q ≡ none
SameClass-none p q c e = subst (λ (x : Option Object). SameClass x q) e c

Owned-later :
    (h h' : Heap) (x this : Addr) (all m : HashMap String Addr)
    → Gone h x h'
    → holds m x ≡ false
    → Owned h this all m
    → Owned h' this all m
Owned-later h h' x this all [] g n w = tt
Owned-later h h' x this all ((k, a) ∷ m) g n (f, ne, out, (o, e, leaf), w) =
    let apart : a ≢ x = λ q. ground (arith, nat_beq_iff a x) in
    let (o', e', d, p) = SameClass-some (h.cell a) (h'.cell a) o (g.others a apart) e in
    (
      f,
      ne,
      out,
      (o', e', subst IsLeaf (sym d) leaf),
      Owned-later h h' x this all m g (ground arith) w,
    )

pub still_there_lem :
    (k : String) (a : Addr) (m : HashMap String Addr) → find k m ≡ some a → still_there m k a ≡ true
unfolding still_there
still_there_lem k a m i = ground (arith, beq_self a)

-- One round, and the rounds after it.
Emptied-round :
    (k : String) (a : Addr) (m : HashMap String Addr) (h h1 h2 : Heap)
    → holds m a ≡ false
    → Gone h a h1
    → Emptied h1 m h2
    → Emptied h ((k, a) ∷ m) h2
Emptied-round k a m h h1 h2 out g z = record {
  gone = λ b y. elim (Bool-cases (a == b)) [
    | inl s ↦
        rw (← (nat_beq_iff a b).0 s)
          (SameClass-none (h1.cell a) (h2.cell a) (z.others a out) g.gone)
    | inr n ↦ z.gone b (ground arith)
  ];
  others = λ b n.
      SameClass-trans (h.cell b) (h1.cell b) (h2.cell b) (g.others b (apart b n))
        (z.others b (ground arith));
  kept = λ b p s n n'.
      z.kept b p s (ground arith) (ground arith) ∙ g.kept b p s (apart b n) (apart p n');
  linked = z.linked;
  quiet = z.quiet ∙ g.quiet;
}
  where
    apart : (b : Addr) → holds ((k, a) ∷ m) b ≡ false → b ≢ a
    apart b n q = ground (arith, nat_beq_iff a b)

module _ (env : Environment) (f : ℕ) (this : Addr) (all : HashMap String Addr) where
  round_lem :
      (k : String) (a : Addr) (m : HashMap String Addr) (h : Heap) (q : Object)
      → h.cell this ≡ some q
      → q.derived ≡ manager all
      → find k all ≡ some a
      → delete_children env (destroy env (suc f)) this ((k, a) ∷ m) h
        ≡ and_then
            (and_then (set_parent a null h) (λ _. destroy env (suc f) a))
            (λ _. delete_children env (destroy env (suc f)) this m)
  unfolding delete_children
  round_lem k a m h q e d i =
      rw (entries_lem h this q all (record { stands = e; kind = d }), still_there_lem k a all i)
        (sym (
          and_then_assoc (set_parent a null h) (λ _. destroy env (suc f) a)
            (λ _. delete_children env (destroy env (suc f)) this m)))

  pub delete_children_lem :
      (m : HashMap String Addr) (h : Heap) (q : Object)
      → Linked h.cell
      → h.cell this ≡ some q
      → q.derived ≡ manager all
      → Owned h this all m
      → Returns (delete_children env (destroy env (suc f)) this m h) (λ _ h'. Emptied h m h')
  delete_children_lem [] h q l e d w =
      unfold delete_children in
      record {
        gone = λ a y. cc;
        others = λ a n. SameClass-refl (h.cell a);
        kept = λ a o s n n'. refl;
        linked = l;
        quiet = refl;
      }
  delete_children_lem ((k, a) ∷ m) h q l e d (i, ne, out, (o, there, leaf), w) =
      rw (round_lem k a m h q e d i) (
        Returns-and_then (and_then (set_parent a null h) (λ _. destroy env (suc f) a)) _
          (λ _ h1. Gone h a h1) _ (child_round env f h a o l there leaf)
          λ _ h1 g.
            let (q1, e1, d1, p1) =
              SameClass-some (h.cell this) (h1.cell this) q (g.others this (λ z. ne (sym z))) e in
            Returns-mono (delete_children env (destroy env (suc f)) this m h1)
              (λ _ h2. Emptied h1 m h2) _
              (delete_children_lem m h1 q1 g.linked e1 (d1 ∙ d)
                (Owned-later h h1 a this all m g out w))
              λ _ h2 z. Emptied-round k a m h h1 h2 out g z)
